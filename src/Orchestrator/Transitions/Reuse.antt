-- ===== src/Orchestrator/Transitions/Reuse.antt =====
-- When a grounding decision is used again.
use mathlib.Core.Bool.{false≢true}
use multiagents.Prelude.{
  contains, Bool-cases, inl, inr, All, any, all, not, ◌||◌, is_empty, str_eq, ◌≡◌, refl, true,
  false, Option, none, some, List, [], ◌∷◌, String, str_eq_iff, strip, lower, arith,
}
use multiagents.Orchestrator.Contracts.{Question, GroundingDecision, GlobalControlIntent}
use multiagents.Orchestrator.Transitions.{
  is_text, other_bindings, invalidated, is_closed, should_reuse_grounding_decision,
}

-- The SUPIs of the flows that are not blank are the intent's, where the intent has one and is to
-- preserve its bindings.
abbrev pub HasBindings : GlobalControlIntent → List String → Type 0
HasBindings intent supis =
    intent.reuse_contract.preserve_bindings ≡ true
    → is_empty (strip intent.supi) ≡ false
    → All (λ s. is_empty (strip s) ≡ false → strip s ≡ strip intent.supi) supis

-- No token that is not blank stands in the text, in whatever case.
abbrev pub NamesNone : List String → String → Type 0
NamesNone tokens text =
    All (λ t. is_empty (lower (strip t)) ≡ false → contains (lower (strip t)) (lower text) ≡ false)
      tokens

-- The conditions under which a decision is used again.
pub record IsReusable (intent : GlobalControlIntent) (g : GroundingDecision) (text : String)
    : Type 0 where
  pub closed : g.open_questions ≡ []
  pub next : lower (strip intent.next_agent) ≡ "optimization_strategy"
  pub allowed : intent.reuse_contract.allowed ≡ true
  pub same_bindings : HasBindings intent g.flow_supis
  pub valid : NamesNone intent.reuse_contract.invalidate_on text

all_same :
    (supi : String) (ss : List String)
    → all (λ s. not (is_text s) || str_eq (strip s) supi) ss ≡ true
    → All (λ s. is_empty (strip s) ≡ false → strip s ≡ supi) ss
unfolding is_text
all_same supi [] h = tt
all_same supi (s ∷ ss) h = (
  (λ full. (str_eq_iff (strip s) supi).0 (ground (arith, h, full))),
  all_same supi ss (ground (arith, h)),
)

-- where every SUPI is blank, none is another
all_blank :
    (supi : String) (ss : List String)
    → any is_text ss ≡ false
    → all (λ s. not (is_text s) || str_eq (strip s) supi) ss ≡ true
all_blank supi [] h = refl
all_blank supi (s ∷ ss) h = ground (arith, h, all_blank supi ss (ground (arith, h)))

same_all :
    (supi : String) (ss : List String)
    → All (λ s. is_empty (strip s) ≡ false → strip s ≡ supi) ss
    → all (λ s. not (is_text s) || str_eq (strip s) supi) ss ≡ true
unfolding is_text
same_all supi [] h = refl
same_all supi (s ∷ ss) (own, rest) = elim (Bool-cases (is_empty (strip s))) [
  | inl blank ↦ rw blank (same_all supi ss rest)
  | inr full ↦ rw (full, (str_eq_iff (strip s) supi).1 (own full)) (same_all supi ss rest)
]

other_bindings-HasBindings :
    (intent : GlobalControlIntent) (g : GroundingDecision)
    → other_bindings intent g ≡ false
    → HasBindings intent g.flow_supis
unfolding other_bindings is_text
other_bindings-HasBindings intent g h preserve given =
    all_same (strip intent.supi) g.flow_supis (elim (Bool-cases (any is_text g.flow_supis)) [
      | inl some_text ↦ ground (arith, h, preserve, given, some_text)
      | inr blank ↦ all_blank (strip intent.supi) g.flow_supis blank
    ])

HasBindings-other_bindings :
    (intent : GlobalControlIntent) (g : GroundingDecision)
    → HasBindings intent g.flow_supis
    → other_bindings intent g ≡ false
unfolding other_bindings is_text
HasBindings-other_bindings intent g own =
    elim (Bool-cases intent.reuse_contract.preserve_bindings) [
      | inr free ↦ ground (arith, free)
      | inl preserve ↦ elim (Bool-cases (is_empty (strip intent.supi))) [
        | inl none_given ↦ ground (arith, none_given)
        | inr given ↦ ground (arith, same_all (strip intent.supi) g.flow_supis (own preserve given))
      ]
    ]

invalidated-NamesNone :
    (tokens : List String) (text : String)
    → invalidated (lower text) tokens ≡ false
    → NamesNone tokens text
unfolding invalidated
invalidated-NamesNone [] text h = tt
invalidated-NamesNone (t ∷ tokens) text h =
    ((λ full. ground (arith, h, full)), invalidated-NamesNone tokens text (ground (arith, h)))

NamesNone-invalidated :
    (tokens : List String) (text : String)
    → NamesNone tokens text
    → invalidated (lower text) tokens ≡ false
unfolding invalidated
NamesNone-invalidated [] text h = refl
NamesNone-invalidated (t ∷ tokens) text (unnamed, rest) =
    elim (Bool-cases (is_empty (lower (strip t)))) [
      | inl blank ↦ ground (arith, blank, NamesNone-invalidated tokens text rest)
      | inr full ↦ ground (arith, full, unnamed full, NamesNone-invalidated tokens text rest)
    ]

closed_questions : (g : GroundingDecision) → is_closed g ≡ true → g.open_questions ≡ []
unfolding is_closed
closed_questions g h = go g.open_questions h
  where
    go : (qs : List Question) → (elim qs [ [] ↦ true | q ∷ rest ↦ false ]) ≡ true → qs ≡ []
    go [] e = refl
    go (q ∷ qs) e = absurd (false≢true e)

open_none : (g : GroundingDecision) → g.open_questions ≡ [] → is_closed g ≡ true
unfolding is_closed
open_none g e = rw e refl

-- A round uses a grounding decision again exactly if there is an earlier one, without an open
-- question, the intent sends it on to the strategy agent and allows the reuse, every SUPI that its
-- flows name is the intent's own, where the intent names one and preserves its bindings, and the
-- previous round's report names no token that invalidates it.
pub should_reuse-IsReusable :
    (intent : GlobalControlIntent) (previous : Option GroundingDecision) (text : String)
    → (should_reuse_grounding_decision intent previous text ≡ true
        → (g : GroundingDecision) × (previous ≡ some g) × IsReusable intent g text)
      × ((g : GroundingDecision)
          → previous ≡ some g
          → IsReusable intent g text
          → should_reuse_grounding_decision intent previous text ≡ true)
unfolding should_reuse_grounding_decision is_closed
should_reuse-IsReusable intent previous text = (forth previous, back)
  where
    forth :
        (o : Option GroundingDecision)
        → should_reuse_grounding_decision intent o text ≡ true
        → (g : GroundingDecision) × (o ≡ some g) × IsReusable intent g text
    forth none h = absurd (false≢true h)
    forth (some g) h = (
      g,
      refl,
      record {
        closed = closed_questions g (ground (arith, h));
        next =
            (str_eq_iff (lower (strip intent.next_agent)) "optimization_strategy").0
              (ground (arith, h));
        allowed = ground (arith, h);
        same_bindings = other_bindings-HasBindings intent g (ground (arith, h));
        valid = invalidated-NamesNone intent.reuse_contract.invalidate_on text (ground (arith, h));
      },
    )

    back :
        (g : GroundingDecision)
        → previous ≡ some g
        → IsReusable intent g text
        → should_reuse_grounding_decision intent previous text ≡ true
    back g e r = rw e (
        ground (
          arith,
          open_none g r.closed,
          (str_eq_iff (lower (strip intent.next_agent)) "optimization_strategy").1 r.next,
          r.allowed,
          HasBindings-other_bindings intent g r.same_bindings,
          NamesNone-invalidated intent.reuse_contract.invalidate_on text r.valid,
        ))
