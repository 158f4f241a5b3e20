-- ===== src/Logger/Redaction.antt =====
-- middleware/logger/logger.go: no value under a sensitive key is left in a body that is logged.
use mathlib.Core.Option
use httpio.Base.{
  ◌⊎◌, ℕ, zero, suc, ◌≡◌, refl, sym, ap, subst, ◌∙◌, inl, inr, Bool, true, false, ◌||◌, List, [],
  ◌∷◌, ◌++◌, Option, none, some, Bytes, bytes, eq, eq_iff, is_empty, has_prefix, trim_space,
  Bool-cases, Option-cases, if◌then◌else◌, All,
}
use httpio.Logger.{
  Json, Items, Members, str, other, arr, obj, nil, cons, end, member, Parsers, redacted, redact,
  redact_items, redact_members, redact_json_fields, is_sensitive_field,
}

-- A step from a JSON value to a part of it.
pub data PathStep : Type 0 where
  key : Bytes → PathStep
  index : ℕ → PathStep

abbrev element_at : ℕ → Items → Option Json
element_at n nil = none
element_at zero (cons x xs) = some x
element_at (suc n) (cons x xs) = element_at n xs

abbrev value_of : Bytes → Members → Option Json
value_of k end = none
value_of k (member j v ms) = if eq j k then some v else value_of k ms

abbrev child : PathStep → Json → Option Json
child (key k) (obj ms) = value_of k ms
child (index n) (arr xs) = element_at n xs
child (key k) (str s) = none
child (key k) (other n) = none
child (key k) (arr xs) = none
child (index n) (str s) = none
child (index n) (other m) = none
child (index n) (obj ms) = none

-- The part of a JSON value at a path.
unfoldable pub at : List PathStep → Json → Option Json
at [] j = some j
at (s ∷ p) j = elim (child s j) [ none ↦ none | some c ↦ at p c ]

at_next :
    (s : PathStep) (p : List PathStep) (j c : Json) → child s j ≡ some c → at (s ∷ p) j ≡ at p c
unfolding at
at_next s p j c found = rw (found, at)

at-none : (s : PathStep) (p : List PathStep) (j : Json) → child s j ≡ none → at (s ∷ p) j ≡ none
unfolding at
at-none s p j missing = rw (missing, at)

module _ (is_sensitive : Bytes → Bool) where
  -- What a part becomes.
  abbrev redact_at : PathStep → Json → Json
  unfolding redact
  redact_at (key k) v = if is_sensitive k then str redacted else redact is_sensitive v
  redact_at (index n) v = redact is_sensitive v

  element_at-redact :
      (n : ℕ) (xs : Items)
      → element_at n (redact_items is_sensitive xs)
        ≡ Option.map (redact is_sensitive) (element_at n xs)
  unfolding redact_items
  element_at-redact n nil = refl
  element_at-redact zero (cons x xs) = refl
  element_at-redact (suc n) (cons x xs) = element_at-redact n xs

  value_of-redact :
      (k : Bytes) (ms : Members)
      → value_of k (redact_members is_sensitive ms) ≡ Option.map (redact_at (key k)) (value_of k ms)
  unfolding redact_members
  value_of-redact k end = refl
  value_of-redact k (member j v ms) = elim (Bool-cases (eq j k)) [
    | inr other_key ↦ rw (other_key) (value_of-redact k ms)
    | inl same ↦ rw (same, sym ((eq_iff j k).0 same))
  ]

  child-redact :
      (s : PathStep) (j : Json)
      → child s (redact is_sensitive j) ≡ Option.map (redact_at s) (child s j)
  unfolding redact
  child-redact (key k) (obj ms) = value_of-redact k ms
  child-redact (index n) (arr xs) = element_at-redact n xs
  child-redact (key k) (str s) = refl
  child-redact (key k) (other n) = refl
  child-redact (key k) (arr xs) = refl
  child-redact (index n) (str s) = refl
  child-redact (index n) (other m) = refl
  child-redact (index n) (obj ms) = refl

  step_redact :
      (s : PathStep) (j c : Json)
      → child s j ≡ some c
      → child s (redact is_sensitive j) ≡ some (redact_at s c)
  step_redact s j c found = child-redact s j ∙ ap (Option.map (redact_at s)) found

  step_redact-none :
      (s : PathStep) (j : Json) → child s j ≡ none → child s (redact is_sensitive j) ≡ none
  step_redact-none s j missing = child-redact s j ∙ ap (Option.map (redact_at s)) missing

  at-str : (p : List PathStep) (k s : Bytes) → at (p ++ key k ∷ []) (str s) ≡ none
  unfolding at
  at-str [] k s = refl
  at-str (key j ∷ p) k s = refl
  at-str (index n ∷ p) k s = refl

  redact_at-cases :
      (s : PathStep) (c : Json)
      → (redact_at s c ≡ str redacted) ⊎ (redact_at s c ≡ redact is_sensitive c)
  unfolding redact_at
  redact_at-cases (index n) c = inr refl
  redact_at-cases (key k) c = elim (Bool-cases (is_sensitive k)) [
    | inl secret ↦ inl (rw secret)
    | inr plain ↦ inr (rw plain)
  ]

  secret_part : (k : Bytes) (c : Json) → is_sensitive k ≡ true → redact_at (key k) c ≡ str redacted
  unfolding redact_at
  secret_part k c h = rw h

  -- Whatever the path, the part under a sensitive key is the mark or not there.
  pub at-redact :
      (p : List PathStep) (k : Bytes) (j : Json)
      → is_sensitive k ≡ true
      → (at (p ++ key k ∷ []) (redact is_sensitive j) ≡ none)
        ⊎ (at (p ++ key k ∷ []) (redact is_sensitive j) ≡ some (str redacted))
  unfolding at
  at-redact [] k j h = elim (Option-cases (child (key k) j)) [
    | inl missing ↦ inl (at-none (key k) [] _ (step_redact-none (key k) j missing))
    | inr (c, found) ↦
        inr (at_next (key k) [] _ _ (step_redact (key k) j c found) ∙ ap some (secret_part k c h))
  ]
  at-redact (s ∷ p) k j h = elim (Option-cases (child s j)) [
    | inl missing ↦ inl (at-none s (p ++ key k ∷ []) _ (step_redact-none s j missing))
    | inr (c, found) ↦
        let here = at_next s (p ++ key k ∷ []) _ _ (step_redact s j c found) in
        elim (redact_at-cases s c) [
          | inl hidden ↦ inl (here ∙ ap (at (p ++ key k ∷ [])) hidden ∙ at-str p k redacted)
          | inr plain ↦
              subst (λ o. (o ≡ none) ⊎ (o ≡ some (str redacted)))
                (sym (here ∙ ap (at (p ++ key k ∷ [])) plain)) (at-redact p k c h)
        ]
  ]

  abbrev pub IsPlain : PathStep → Type 0
  IsPlain (key k) = is_sensitive k ≡ false
  IsPlain (index n) = Unit

  redact_at-plain : (s : PathStep) (c : Json) → IsPlain s → redact_at s c ≡ redact is_sensitive c
  unfolding redact_at
  redact_at-plain (index n) c h = refl
  redact_at-plain (key k) c h = rw h

  -- A part that no sensitive key leads to is the redacted part.
  pub at-redact_plain :
      (p : List PathStep) (j : Json)
      → All IsPlain p
      → at p (redact is_sensitive j) ≡ Option.map (redact is_sensitive) (at p j)
  unfolding at
  at-redact_plain [] j h = refl
  at-redact_plain (s ∷ p) j (h, hs) = elim (Option-cases (child s j)) [
    | inl missing ↦
        at-none s p _ (step_redact-none s j missing)
        ∙ sym (ap (Option.map (redact is_sensitive)) (at-none s p j missing))
    | inr (c, found) ↦
        at_next s p _ _ (step_redact s j c found)
        ∙ ap (at p) (redact_at-plain s c h)
        ∙ at-redact_plain p c hs
        ∙ sym (ap (Option.map (redact is_sensitive)) (at_next s p j c found))
  ]

abbrev pub looks_like_json : Bytes → Bool
looks_like_json body =
    has_prefix (trim_space body) (bytes "{") || has_prefix (trim_space body) (bytes "[")

-- What the middleware relies on in encoding/json: the value can be marshalled, and is read back.
abbrev pub IsEncoded : Parsers → Json → Type 0
IsEncoded parsers j = (b : Bytes) × (parsers.marshal j ≡ some b) × (parsers.unmarshal b ≡ some j)

redacted_body :
    (parsers : Parsers) (sensitive : List Bytes) (body : Bytes) (j : Json)
    → IsEncoded parsers (redact (is_sensitive_field parsers sensitive) j)
    → is_empty body ≡ false
    → looks_like_json body ≡ true
    → parsers.unmarshal body ≡ some j
    → parsers.unmarshal (redact_json_fields parsers sensitive body)
      ≡ some (redact (is_sensitive_field parsers sensitive) j)
unfolding redact_json_fields
redacted_body parsers sensitive body j (b, marshals, reads_back) full looks parsed =
    rw (full, looks, parsed, marshals) reads_back

-- A body that is not empty, starts like JSON and can be parsed becomes, for the log, a text that can
-- be parsed too; at any path in it, what stands under a key that one of the patterns matches is the
-- string "[REDACTED]", and what no such key leads to is there exactly where it was, itself redacted.
-- That encoding/json marshals the redacted value, and reads back what it marshals, is assumed.
pub redact_json_fields-redacts :
    (parsers : Parsers) (sensitive : List Bytes) (body : Bytes) (j : Json)
    → IsEncoded parsers (redact (is_sensitive_field parsers sensitive) j)
    → is_empty body ≡ false
    → looks_like_json body ≡ true
    → parsers.unmarshal body ≡ some j
    → (p : List PathStep) (k : Bytes) (q : List PathStep)
    → is_sensitive_field parsers sensitive k ≡ true
    → All (IsPlain (is_sensitive_field parsers sensitive)) q
    → (j' : Json) × (parsers.unmarshal (redact_json_fields parsers sensitive body) ≡ some j')
      × ((at (p ++ key k ∷ []) j' ≡ none) ⊎ (at (p ++ key k ∷ []) j' ≡ some (str redacted)))
      × (at q j' ≡ Option.map (redact (is_sensitive_field parsers sensitive)) (at q j))
redact_json_fields-redacts parsers sensitive body j encoded full looks parsed p k q secret plain = (
  redact (is_sensitive_field parsers sensitive) j,
  redacted_body parsers sensitive body j encoded full looks parsed,
  at-redact (is_sensitive_field parsers sensitive) p k j secret,
  at-redact_plain (is_sensitive_field parsers sensitive) q j plain,
)
