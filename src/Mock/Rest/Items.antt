-- ===== src/Mock/Rest/Items.antt =====
-- mockserver/mock_server.go: what the handler of the items of a resource is to do, and the map's list.
use httpio.Base.{
  ltb, length, ℕ, ◌+◌, ◌≡◌, refl, ap, ◌∙◌, inl, inr, Bool-cases, List, [], ◌∷◌, Option, none, some,
  Bytes, bytes, eq, eq_iff, drop, subst, arith, if◌then◌else◌,
}
use httpio.Http.{Request}
use httpio.Mock.{ResponseWriter}
use httpio.Mock.Rest.{Encoding, find_item, assign_item, delete_item}

abbrev pub Items : Type 0 → Type 0
Items J = Bytes → Option J

abbrev pub update : {J : Type 0} → Bytes → Option J → Items J → Items J
update id o m k = if eq id k then o else m k

pub data Verb : Type 0 where
  gets : Verb
  puts : Verb
  deletes : Verb
  others : Verb

abbrev pub verb_of : Bytes → Verb
verb_of method =
    if eq method (bytes "GET")
    then gets
    else if eq method (bytes "PUT")
    then puts
    else if eq method (bytes "DELETE")
    then deletes
    else others

abbrev pub found_or : {J : Type 0} → Option J → ℕ → ℕ → ℕ
found_or none found missing = missing
found_or (some j) found missing = found

-- What a request to an item means: the status of its answer, and the map.
abbrev pub spec_item : {J : Type 0} → Verb → Bytes → Option J → Items J → ℕ × Items J
spec_item gets id o m = (found_or (m id) 200 404, m)
spec_item puts id none m = (400, m)
spec_item puts id (some j) m = (200, update id (some j) m)
spec_item deletes id o m = (found_or (m id) 204 404, update id none m)
spec_item others id o m = (405, m)

-- No key is there twice, as in any map.
abbrev pub AreDistinct : {J : Type 0} → List (Bytes × J) → Type 0
AreDistinct [] = Unit {0}
AreDistinct ((k, j) ∷ m) = (find_item k m ≡ none) × AreDistinct m

module _ {J : Type 0} where
  pub find_item-assign :
      (id : Bytes) (j : J) (m : List (Bytes × J)) (k : Bytes)
      → find_item k (assign_item id j m) ≡ update id (some j) (λ q. find_item q m) k
  unfolding find_item assign_item
  find_item-assign id j [] k = ground arith
  find_item-assign id j ((q, i) ∷ m) k =
      ground (arith, find_item-assign id j m k, eq_iff q id, eq_iff q k, eq_iff id k)

  pub assign_item-AreDistinct :
      (id : Bytes) (j : J) (m : List (Bytes × J)) → AreDistinct m → AreDistinct (assign_item id j m)
  unfolding find_item assign_item
  assign_item-AreDistinct id j [] d = (refl, tt)
  assign_item-AreDistinct id j ((q, i) ∷ m) (n, d) = elim (Bool-cases (eq q id)) [
    | inl same ↦ rw same (n, d)
    | inr other ↦ rw other (
      find_item-assign id j m q ∙ ground (arith, n, other, eq_iff q id, eq_iff id q),
      assign_item-AreDistinct id j m d,
    )
  ]

  pub find_item-delete :
      (id : Bytes) (m : List (Bytes × J)) (k : Bytes)
      → AreDistinct m
      → find_item k (delete_item id m) ≡ update id none (λ q. find_item q m) k
  unfolding find_item delete_item
  find_item-delete id [] k d = ground arith
  find_item-delete id ((q, i) ∷ m) k (n, d) = elim (Bool-cases (eq q id)) [
    | inl same ↦
        let p = (eq_iff q id).0 same in
        elim (Bool-cases (eq id k)) [
          | inl found ↦
              rw (same, found) (subst (λ z. find_item z m ≡ none) (p ∙ (eq_iff id k).0 found) n)
          | inr apart ↦ rw (same, apart, ap (λ z. eq z k) p ∙ apart) refl
        ]
    | inr other ↦
        rw other
          (ground (arith, other, find_item-delete id m k d, eq_iff q k, eq_iff id k, eq_iff q id))
  ]

  pub delete_item-AreDistinct :
      (id : Bytes) (m : List (Bytes × J)) → AreDistinct m → AreDistinct (delete_item id m)
  unfolding find_item delete_item
  delete_item-AreDistinct id [] d = tt
  delete_item-AreDistinct id ((q, i) ∷ m) (n, d) = elim (Bool-cases (eq q id)) [
    | inl same ↦ rw same d
    | inr other ↦
        rw other (find_item-delete id m q d ∙ ground (arith, n), delete_item-AreDistinct id m d)
  ]

-- To delete what is missing changes nothing.
pub update_missing :
    {J : Type 0} (id : Bytes) (m : List (Bytes × J))
    → find_item id m ≡ none
    → (k : Bytes) → find_item k m ≡ update id none (λ q. find_item q m) k
update_missing id m n k = elim (Bool-cases (eq id k)) [
  | inl same ↦ rw same (subst (λ z. find_item z m ≡ none) ((eq_iff id k).0 same) n)
  | inr other ↦ rw other refl
]

module _ {J : Type 0} (encoding : Encoding J) where
  -- A path that is too short to have an identifier gets no status, and changes nothing.
  abbrev pub spec_request : ℕ → Request → Items J → Option ℕ × Items J
  spec_request base r m =
      let (code, m1) =
        spec_item (verb_of r.method) (drop (base + 1) r.path) (encoding.decode r.body) m in
      if ltb (length r.path) (base + 1) then (none, m) else (some code, m1)

  abbrev pub spec_serve : ℕ → List (ResponseWriter × Request) → Items J → List (Option ℕ) × Items J
  spec_serve base [] m = ([], m)
  spec_serve base ((w, r) ∷ rs) m =
      let (code, m1) = spec_request base r m in
      let (codes, m2) = spec_serve base rs m1 in (code ∷ codes, m2)
