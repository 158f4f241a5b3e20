-- ===== src/Cache/Keys/Order.antt =====
-- middleware/cache/cache.go: the key of the full request does not depend on the order in which Go's
-- loop meets the headers.
use mathlib.Core.Logic.{∥∥₁_elim}
use mathlib.Core.Quot
use mathlib.Core.Quot.{Quot}
use mathlib.Core.List.{Perm}
use mathlib.Core.List.{Permᴰ}
use httpio.Base.{
  ◌≡◌, ◌≢◌, refl, sym, ap, ◌∙◌, subst, true, false, List, [], ◌∷◌, ◌++◌, Bytes, arith, All,
}
use httpio.Http.{Header, Request}
use httpio.Cache.Config.{
  KeyStrategyType, key_by_url_and_method, key_by_url_only, key_by_full_request, unnamed,
}
use httpio.Cache.Keys.{
  text_leb, insert_key, sort_keys, full_request_text, generate_key, write_headers, hashed_body,
  method_url_key,
}

text_leb_total : (s t : Bytes) → text_leb s t ≡ false → text_leb t s ≡ true
unfolding text_leb
text_leb_total [] t h = cc
text_leb_total (a ∷ s) [] h = refl
text_leb_total (a ∷ s) (b ∷ t) h = ground (arith, text_leb_total s t)

text_leb_antisymm : (s t : Bytes) → text_leb s t ≡ true → text_leb t s ≡ true → s ≡ t
unfolding text_leb
text_leb_antisymm [] [] h k = refl
text_leb_antisymm [] (b ∷ t) h k = cc
text_leb_antisymm (a ∷ s) [] h k = cc
text_leb_antisymm (a ∷ s) (b ∷ t) h k = ground (arith, text_leb_antisymm s t)

text_leb_trans : (s t u : Bytes) → text_leb s t ≡ true → text_leb t u ≡ true → text_leb s u ≡ true
unfolding text_leb
text_leb_trans [] t u h k = refl
text_leb_trans (a ∷ s) [] u h k = cc
text_leb_trans (a ∷ s) (b ∷ t) [] h k = cc
text_leb_trans (a ∷ s) (b ∷ t) (c ∷ u) h k = ground (arith, text_leb_trans s t u)

-- Two different keys are inserted in either order.
insert_key_comm :
    (p q : Bytes × List Bytes) (h : Header)
    → p.0 ≢ q.0
    → insert_key p (insert_key q h) ≡ insert_key q (insert_key p h)
unfolding insert_key
insert_key_comm p q [] d = ground (arith, text_leb_total p.0 q.0, text_leb_antisymm p.0 q.0)
insert_key_comm p q (x ∷ h) d = ground (
  arith,
  text_leb_total p.0 q.0,
  text_leb_antisymm p.0 q.0,
  text_leb_trans p.0 q.0 x.0,
  text_leb_trans q.0 p.0 x.0,
  insert_key_comm p q h d,
)

-- A list that holds a map: its keys are different.
abbrev pub IsMap : Header → Type 0
IsMap [] = Unit
IsMap (p ∷ h) = All (λ q. p.0 ≢ q.0) h × IsMap h

-- The library's `Perm` is the truncation of `Permᴰ`.
All-perm : (P : Bytes × List Bytes → Type 0) {h h' : Header} → Permᴰ h h' → All P h → All P h'
All-perm P Permᴰ.nil a = a
All-perm P (Permᴰ.cons e p) (a, rest) = (subst P e a, All-perm P p rest)
All-perm P (Permᴰ.swap e f) (a, (b, rest)) = (subst P f b, (subst P e a, rest))
All-perm P (Permᴰ.trans p q) a = All-perm P q (All-perm P p a)

IsMap-swap : (a b : Bytes × List Bytes) (h : Header) → IsMap (a ∷ b ∷ h) → IsMap (b ∷ a ∷ h)
IsMap-swap a b h ((n, m), (k, d)) = ((λ e. n (sym e), k), (m, d))

IsMap-perm : {h h' : Header} → Permᴰ h h' → IsMap h → IsMap h'
IsMap-perm Permᴰ.nil m = m
IsMap-perm (Permᴰ.cons {a = a} {b = b} {l₂ = h'} e p) (x, m) =
    (subst (λ c. All (λ q. c.0 ≢ q.0) h') e (All-perm (λ q. a.0 ≢ q.0) p x), IsMap-perm p m)
IsMap-perm (Permᴰ.swap {a = a} {b = b} {b' = b'} {l = l} e f) m =
    subst (λ c. IsMap (c ∷ b' ∷ l)) f (subst (λ c. IsMap (b ∷ c ∷ l)) e (IsMap-swap a b l m))
IsMap-perm (Permᴰ.trans p q) m = IsMap-perm q (IsMap-perm p m)

sort_keys-permᴰ : {h h' : Header} → Permᴰ h h' → IsMap h → sort_keys h ≡ sort_keys h'
unfolding sort_keys
sort_keys-permᴰ Permᴰ.nil m = refl
sort_keys-permᴰ (Permᴰ.cons e p) (x, m) = rw (e, sort_keys-permᴰ p m)
sort_keys-permᴰ (Permᴰ.swap {a = a} {b = b} {l = l} e f) ((n, k), m) =
    rw (← e, ← f) (insert_key_comm a b (sort_keys l) n)
sort_keys-permᴰ (Permᴰ.trans p q) m = sort_keys-permᴰ p m ∙ sort_keys-permᴰ q (IsMap-perm p m)

-- The keys of a map are sorted to one list.
sort_keys-perm : (h h' : Header) → IsMap h → Perm h h' → sort_keys h ≡ sort_keys h'
sort_keys-perm h h' m p = ∥∥₁_elim p (hlevel) (λ d. sort_keys-permᴰ d m)

-- The request with a map of headers, as a list in some order.
abbrev pub sent_with : Request → Header → Request
sent_with req h = record req { header = h }

-- Whatever the strategy, two orders of the request's headers give one key, if no name stands twice
-- among them, as in a map.
pub generate_key-perm :
    (hash : Bytes → Bytes) (strategy : KeyStrategyType) (req : Request) (h h' : Header)
    → IsMap h
    → Perm h h'
    → generate_key hash strategy (sent_with req h) ≡ generate_key hash strategy (sent_with req h')
unfolding generate_key full_request_text method_url_key
generate_key-perm hash key_by_url_and_method req h h' m p = refl
generate_key-perm hash key_by_full_request req h h' m p =
    ap
      (λ sorted. hash (
        req.method
        ++ (req.url ++ (write_headers sorted ++ hashed_body req.content_length req.body))))
      (sort_keys-perm h h' m p)
generate_key-perm hash key_by_url_only req h h' m p = refl
generate_key-perm hash (unnamed n) req h h' m p = refl

-- The headers without an order: the key is a function of these.
abbrev pub HeaderMap : Type 0
HeaderMap = Quot {α = (h : Header) × IsMap h} (λ a b. Perm a.0 b.0)

map_key : (Bytes → Bytes) → KeyStrategyType → Request → HeaderMap → Bytes
map_key hash strategy req =
    Quot.lift (hlevel) (λ a. generate_key hash strategy (sent_with req a.0))
      (λ a b p. generate_key-perm hash strategy req a.0 b.0 a.1 p)
