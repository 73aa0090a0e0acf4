-- ===== src/Response/Feedback/Verdict.antt =====
-- What a feedback is taken for.
use mathlib.Core.Path.{sym}
use flood_agent.Base.{
  ℕ, ◌≤◌, ◌≡◌, ◌⊎◌, ◌↔◌, inl, inr, refl, ap, ◌∙◌, arith, Bool, true, false, Option, none, some,
  List, [], ◌∷◌, ◌++◌, Text, codes, any, is_empty, starts_with, contains, Bool-cases,
}
use flood_agent.Response.Enums.{completion}
use flood_agent.Response.Requests.{EvidenceItem, FeedbackRequest}
use flood_agent.Response.Feedback.{
  given, coordination_words, join_given, below_hundred, asks_for_help, classify_feedback,
}

-- The word stands somewhere in the text.
abbrev pub Mentions : Text → Text → Type 0
Mentions word text = (before : Text) × (after : Text) × (text ≡ before ++ (word ++ after))

starts_with-prefix : (p s : Text) → starts_with p s ≡ true → (rest : Text) × (s ≡ p ++ rest)
starts_with-prefix [] s h = (s, refl)
starts_with-prefix (a ∷ p) [] h = absurd (ground arith)
starts_with-prefix (a ∷ p) (b ∷ s) h =
    let (rest, e) = starts_with-prefix p s (ground arith) in (rest, ground arith)

prefix-starts_with : (p rest : Text) → starts_with p (p ++ rest) ≡ true
prefix-starts_with [] rest = refl
prefix-starts_with (a ∷ p) rest = ground (arith, prefix-starts_with p rest)

contains-Mentions : (p s : Text) → contains p s ≡ true → Mentions p s
contains-Mentions p [] h = let (rest, e) = starts_with-prefix p [] h in ([], rest, e)
contains-Mentions p (b ∷ s) h = elim (Bool-cases (starts_with p (b ∷ s))) [
  | inl e ↦ let (rest, found) = starts_with-prefix p (b ∷ s) e in ([], rest, found)
  | inr e ↦
      let (before, after, found) = contains-Mentions p s (ground arith) in
      (b ∷ before, after, ap (λ x. b ∷ x) found)
]

Mentions-contains : (p before after : Text) → contains p (before ++ (p ++ after)) ≡ true
Mentions-contains p [] after = here (p ++ after) (prefix-starts_with p after)
  where
    here : (s : Text) → starts_with p s ≡ true → contains p s ≡ true
    here [] h = h
    here (b ∷ s) h = ground arith
Mentions-contains p (b ∷ before) after = ground (arith, Mentions-contains p before after)

-- An optional text that is missing or empty.
abbrev pub IsBlank : Option Text → Type 0
IsBlank o = (o ≡ none) ⊎ (o ≡ some [])

given-IsBlank : (o : Option Text) → given o ≡ false → IsBlank o
given-IsBlank none h = inl refl
given-IsBlank (some []) h = inr refl
given-IsBlank (some (c ∷ s)) h = absurd (ground arith)

IsBlank-given : (o : Option Text) → IsBlank o → given o ≡ false
IsBlank-given o h = ground arith

-- A percentage that is missing or a hundred at least.
abbrev pub IsFull : Option ℕ → Type 0
IsFull o = (o ≡ none) ⊎ ((n : ℕ) × (o ≡ some n) × (100 ≤ n))

below_hundred-IsFull : (o : Option ℕ) → below_hundred o ≡ false → IsFull o
below_hundred-IsFull none h = inl refl
below_hundred-IsFull (some n) h = inr (n, refl, ground arith)

IsFull-below_hundred : (o : Option ℕ) → IsFull o → below_hundred o ≡ false
IsFull-below_hundred o (inl e) = ground arith
IsFull-below_hundred o (inr (n, e, h)) = ground arith

-- Evidence is attached, no resource gap and no reason of a block is named, a percentage below a
-- hundred is not given, and the summary has none of the words 协同, 支援, 增援 and 协调.
abbrev pub IsCompletion : FeedbackRequest → Type 0
IsCompletion r =
    ((item : EvidenceItem) × (items : List EvidenceItem) × (r.evidence ≡ item ∷ items))
    × IsBlank r.resource_gap
    × IsBlank r.blocked_reason
    × IsFull r.completion_percent
    × (¬ Mentions (codes "协同") r.summary)
    × (¬ Mentions (codes "支援") r.summary)
    × (¬ Mentions (codes "增援") r.summary)
    × (¬ Mentions (codes "协调") r.summary)

-- Where nothing else is given, the text that is searched is the summary.
asks-summary :
    (r : FeedbackRequest)
    → given r.resource_gap ≡ false
    → given r.blocked_reason ≡ false
    → asks_for_help r ≡ any (λ word. contains word r.summary) coordination_words
unfolding asks_for_help
asks-summary r gap block = joined r.summary r.blocked_reason r.resource_gap block gap
  where
    joined :
        (s : Text) (b g : Option Text)
        → given b ≡ false
        → given g ≡ false
        → any (λ word. contains word (join_given (some s ∷ b ∷ g ∷ []))) coordination_words
          ≡ any (λ word. contains word s) coordination_words
    joined [] b g hb hg = ground arith
    joined (c ∷ s) b g hb hg = ground arith

contains-not_Mentions : (w s : Text) → contains w s ≡ false → ¬ Mentions w s
contains-not_Mentions w s h (before, after, e) =
    absurd (ground (arith, Mentions-contains w before after, ap (contains w) e))

not_Mentions-contains : (w s : Text) → (¬ Mentions w s) → contains w s ≡ false
not_Mentions-contains w s h = elim (Bool-cases (contains w s)) [
  | inl e ↦ absurd (h (contains-Mentions w s e))
  | inr e ↦ e
]

abbrev has_word : Text → Bool
has_word s = any (λ word. contains word s) coordination_words

-- The four words, one by one.
no_words :
    (s : Text)
    → has_word s ≡ false
    → (contains (codes "协同") s ≡ false)
      × (contains (codes "支援") s ≡ false)
      × (contains (codes "增援") s ≡ false)
      × (contains (codes "协调") s ≡ false)
no_words s h = (ground arith, ground arith, ground arith, ground arith)

classified :
    (r : FeedbackRequest)
    → classify_feedback r ≡ completion
    → (is_empty r.evidence ≡ false)
      × (given r.resource_gap ≡ false)
      × (given r.blocked_reason ≡ false)
      × (below_hundred r.completion_percent ≡ false)
      × (asks_for_help r ≡ false)
unfolding classify_feedback
classified r h = (ground arith, ground arith, ground arith, ground arith, ground arith)

some_evidence :
    (l : List EvidenceItem)
    → is_empty l ≡ false
    → (item : EvidenceItem) × (items : List EvidenceItem) × (l ≡ item ∷ items)
some_evidence [] h = absurd (ground arith)
some_evidence (item ∷ items) h = (item, items, refl)

completion-IsCompletion : (r : FeedbackRequest) → classify_feedback r ≡ completion → IsCompletion r
completion-IsCompletion r h =
    let (evidence, gap, block, full, help) = classified r h in
    let (first, second, third, fourth) =
      no_words r.summary (sym (asks-summary r gap block) ∙ help) in
    (
      some_evidence r.evidence evidence,
      given-IsBlank r.resource_gap gap,
      given-IsBlank r.blocked_reason block,
      below_hundred-IsFull r.completion_percent full,
      contains-not_Mentions (codes "协同") r.summary first,
      contains-not_Mentions (codes "支援") r.summary second,
      contains-not_Mentions (codes "增援") r.summary third,
      contains-not_Mentions (codes "协调") r.summary fourth,
    )

IsCompletion-completion : (r : FeedbackRequest) → IsCompletion r → classify_feedback r ≡ completion
unfolding classify_feedback
IsCompletion-completion r ((item, items, e), gap, block, full, first, second, third, fourth) =
    let no_gap = IsBlank-given r.resource_gap gap in
    let no_block = IsBlank-given r.blocked_reason block in
    let no_first = not_Mentions-contains (codes "协同") r.summary first in
    let no_second = not_Mentions-contains (codes "支援") r.summary second in
    let no_third = not_Mentions-contains (codes "增援") r.summary third in
    let no_fourth = not_Mentions-contains (codes "协调") r.summary fourth in
    let help = asks-summary r no_gap no_block in
    let quiet : has_word r.summary ≡ false = ground arith in
    ground (arith, IsFull-below_hundred r.completion_percent full)

-- A feedback is classified as a completion exactly when evidence is attached, no resource gap and
-- no reason of a block is named, a percentage is missing or a hundred at least, and none of the
-- words 协同, 支援, 增援 and 协调 stands in the summary.
pub classify_feedback-completion_iff :
    (r : FeedbackRequest) → (classify_feedback r ≡ completion) ↔ IsCompletion r
classify_feedback-completion_iff r = (completion-IsCompletion r, IsCompletion-completion r)
