-- ===== src/Http/Headers.antt =====
-- `http.Header`: canonical names, `Get`, `Set` and `Add`.
use httpio.Base.{
  ℕ, ◌+◌, ◌-◌, ◌≡◌, refl, ap, ◌≢◌, Bool, true, ◌&&◌, ◌||◌, List, [], ◌∷◌, ◌++◌, arith, leb, ◌==◌,
  if◌then◌else◌, Bytes, bytes, eq, eq_iff, eq_refl, any, not,
}
use httpio.Http.{Header}

abbrev is_upper : ℕ → Bool
is_upper c = leb 65 c && leb c 90

abbrev is_lower : ℕ → Bool
is_lower c = leb 97 c && leb c 122

-- The bytes of a token of RFC 7230: letters, digits and !#$%&'*+-.^_`|~
abbrev is_token_byte : ℕ → Bool
is_token_byte c =
    is_upper c || is_lower c || leb 48 c && leb c 57 || any (λ d. c == d) (bytes "!#$%&'*+-.^_`|~")

-- A letter behind the start or a dash is upper case, any other letter lower case.
capitalise : Bool → Bytes → Bytes
capitalise upper [] = []
capitalise upper (c ∷ s) =
    (if upper && is_lower c then c - 32 else if not upper && is_upper c then c + 32 else c)
    ∷ capitalise (c == b'-') s

-- `textproto.CanonicalMIMEHeaderKey`
unfoldable pub canonical : Bytes → Bytes
unfolding capitalise
canonical s = if any (λ c. not (is_token_byte c)) s then s else capitalise true s

-- The values under a name as it stands in the map.
unfoldable pub values : Bytes → Header → List Bytes
values k [] = []
values k ((j, vs) ∷ h) = if eq j k then vs else values k h

-- The map with the values under a name replaced.
unfoldable pub put : Bytes → List Bytes → Header → Header
put k vs [] = (k, vs) ∷ []
put k vs ((j, ws) ∷ h) = if eq j k then (j, vs) ∷ h else (j, ws) ∷ put k vs h

abbrev first : List Bytes → Bytes
first [] = []
first (v ∷ vs) = v

-- `h.Get(key)`: the first value, or "".
unfoldable pub get : Header → Bytes → Bytes
get h key = first (values (canonical key) h)

-- `h.Set(key, value)`
unfoldable pub set : Header → Bytes → Bytes → Header
set h key value = put (canonical key) (value ∷ []) h

-- `h.Add(key, value)`
unfoldable pub add : Header → Bytes → Bytes → Header
add h key value = put (canonical key) (values (canonical key) h ++ value ∷ []) h

pub values-put_self : (k : Bytes) (vs : List Bytes) (h : Header) → values k (put k vs h) ≡ vs
unfolding values put
values-put_self k vs [] = ground (arith, eq_refl k)
values-put_self k vs ((j, ws) ∷ h) = ground (arith, values-put_self k vs h)

pub values-put_ne :
    (k q : Bytes) (vs : List Bytes) (h : Header) → k ≢ q → values q (put k vs h) ≡ values q h
unfolding values put
values-put_ne k q vs [] n = ground (arith, eq_iff k q)
values-put_ne k q vs ((j, ws) ∷ h) n =
    ground (arith, eq_iff j k, eq_iff j q, values-put_ne k q vs h)

-- A read right after a write of the same name gives the value.
pub get-set_self : (h : Header) (key value : Bytes) → get (set h key value) key ≡ value
unfolding get set
get-set_self h key value = ap first (values-put_self (canonical key) (value ∷ []) h)

-- A write leaves the names alone that differ in canonical form.
pub get-set_ne :
    (h : Header) (key other value : Bytes)
    → canonical key ≢ canonical other
    → get (set h key value) other ≡ get h other
unfolding get set
get-set_ne h key other value n =
    ap first (values-put_ne (canonical key) (canonical other) (value ∷ []) h n)

accept : canonical (bytes "x-api-KEY") ≡ bytes "X-Api-Key"
unfolding canonical
accept = refl

spaced : canonical (bytes "x y") ≡ bytes "x y"
unfolding canonical
spaced = refl
