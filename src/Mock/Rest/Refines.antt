-- ===== src/Mock/Rest/Refines.antt =====
-- mockserver/mock_server.go: the handler of the items of a resource is a finite map.
use mathlib.Core.Path.{fun_ext}
use httpio.Base.{
  ltb, length, ℕ, zero, suc, ◌+◌, ℤ, pos, negsuc, ◌≡◌, refl, ap, ◌∙◌, inl, inr, Bool-cases,
  Option-cases, List, [], ◌∷◌, Option, none, some, Bytes, bytes, eq, drop, ◌++◌, if_either,
  if◌then◌else◌, ◌==◌,
}
use httpio.Http.{Request}
use httpio.Mock.{ResponseWriter, write_header, put_header}
use httpio.Mock.Routes.{Platform, handle_json_response, write_json, sleep_for, delay_or}
use httpio.Mock.Rest.{
  Storage, Encoding, find_item, assign_item, delete_item, answer, value_of, serve_item, item,
}
use httpio.Mock.Rest.Items.{
  Items, spec_item, spec_request, spec_serve, verb_of, AreDistinct, find_item-assign,
  assign_item-AreDistinct, find_item-delete, delete_item-AreDistinct, update_missing,
}
use httpio.Mock.Rest.Statuses.{write_header-none, write-some, http_error-none, http_error-some}

abbrev pub AreUnused : List (ResponseWriter × Request) → Type 0
AreUnused [] = Unit {0}
AreUnused ((w, r) ∷ rs) = (w.status ≡ none) × AreUnused rs

-- The map is stored apart from what sleeping changes.
pub record Keeps {J S : Type 0} (platform : Platform J S) (storage : Storage J S) : Type 0 where
  pub saved : (m : List (Bytes × J)) (s : S) → storage.load (storage.save m s) ≡ m
  pub slept : (n : ℕ) (s : S) → storage.load (platform.sleep n s) ≡ storage.load s

module _ {J S : Type 0} (platform : Platform J S) (encoding : Encoding J)
    (storage : Storage J S) where
  write_json-some :
      (j : J) (c : ℕ) (w : ResponseWriter)
      → w.status ≡ some c
      → (write_json platform j w).1.status ≡ some c
  unfolding write_json
  write_json-some j c w h = elim (Option-cases (platform.marshal j)) [
    | inl n ↦ rw (write_json, n) h
    | inr (b, s) ↦ rw (write_json, s) (write-some (b ++ 10 ∷ []) c w h)
  ]

  answer-status :
      (code : ℕ) (o : Option J) (delay : ℤ) (w : ResponseWriter) (r : Request) (s : S)
      → w.status ≡ none
      → (answer platform encoding storage code o delay w r s).0.status
        ≡ some (if code == 0 then 200 else code)
  unfolding handle_json_response
  answer-status code none delay w r s h =
      write_header-none (if code == 0 then 200 else code)
        (put_header (bytes "Content-Type") (bytes "application/json") w) h
  answer-status code (some j) delay w r s h =
      let c = if code == 0 then 200 else code in
      let w1 = write_header c (put_header (bytes "Content-Type") (bytes "application/json") w) in
      let written =
        write_json-some j c w1 (
          write_header-none c (put_header (bytes "Content-Type") (bytes "application/json") w) h) in
      if_either (λ (w2 : ResponseWriter). w2.status ≡ some c) (write_json platform j w1).0 _ _
        written
        (http_error-some (bytes "Internal Server Error") c 500 (write_json platform j w1).1 written)

  -- Requests to the items, each with a new writer: the statuses of the answers, and the state.
  unfoldable pub serve : ℕ → ℤ → List (ResponseWriter × Request) → S → List (Option ℕ) × S
  unfolding item
  serve base delay [] s = ([], s)
  serve base delay ((w, r) ∷ rs) s =
      let (w', s1) = item platform encoding storage base delay w r s in
      let (codes, s2) = serve base delay rs s1 in (w'.status ∷ codes, s2)

  module _ (keeps : Keeps platform storage) where
    sleep_for-load :
        (delay : ℤ) (s : S) → storage.load (sleep_for platform delay s) ≡ storage.load s
    sleep_for-load (pos zero) s = refl
    sleep_for-load (pos (suc n)) s = keeps.slept (suc n) s
    sleep_for-load (negsuc n) s = refl

    -- The status is that of the specification, and the map is the specification's.
    abbrev pub Refined : ResponseWriter × S → Option ℕ × Items J → Type 0
    Refined o x =
        (o.0.status ≡ x.0)
        × AreDistinct (storage.load o.1)
        × ((k : Bytes) → find_item k (storage.load o.1) ≡ x.1 k)

    answer-Refined :
        (code : ℕ) (o : Option J) (delay : ℤ) (w : ResponseWriter) (r : Request) (s : S)
        (m : Items J)
        → w.status ≡ none
        → AreDistinct (storage.load s)
        → ((k : Bytes) → find_item k (storage.load s) ≡ m k)
        → Refined
            (answer platform encoding storage code o delay w r s)
            (some (if code == 0 then 200 else code), m)
    unfolding handle_json_response
    answer-Refined code none delay w r s m h d same = (
      answer-status code none delay w r s h,
      rw (sleep_for-load (delay_or (pos 0) delay) s) d,
      rw (sleep_for-load (delay_or (pos 0) delay) s) same,
    )
    answer-Refined code (some j) delay w r s m h d same = (
      answer-status code (some j) delay w r s h,
      rw (sleep_for-load (delay_or (pos 0) delay) s) d,
      rw (sleep_for-load (delay_or (pos 0) delay) s) same,
    )

    serve_item-Refined :
        (id : Bytes) (delay : ℤ) (w : ResponseWriter) (r : Request) (s : S)
        → w.status ≡ none
        → AreDistinct (storage.load s)
        → Refined (serve_item platform encoding storage id delay w r s) (
          some
              (spec_item
                (verb_of r.method)
                id
                (encoding.decode r.body)
                (λ k. find_item k (storage.load s))).0,
          (spec_item
              (verb_of r.method)
              id
              (encoding.decode r.body)
              (λ k. find_item k (storage.load s))).1,
        )
    unfolding serve_item
    serve_item-Refined id delay w r s h d =
        let items = storage.load s in
        elim (Bool-cases (eq r.method (bytes "GET"))) [
          | inl get ↦ elim (Option-cases (find_item id items)) [
            | inl n ↦
                rw (serve_item, get, n) (http_error-none (bytes "Not found") 404 w h, d, λ k. refl)
            | inr (j, found) ↦
                rw (serve_item, get, found)
                  (answer-Refined 0 (value_of platform encoding storage j) delay w r s _ h d
                    (λ k. refl))
          ]
          | inr not_get ↦ elim (Bool-cases (eq r.method (bytes "PUT"))) [
            | inl put ↦ elim (Option-cases (encoding.decode r.body)) [
              | inl n ↦
                  rw (serve_item, not_get, put, n)
                    (http_error-none (bytes "Invalid JSON") 400 w h, d, λ k. refl)
              | inr (j, found) ↦
                  rw (serve_item, not_get, put, found)
                    (answer-Refined 0 (value_of platform encoding storage j) delay w r
                      (storage.save (assign_item id j items) s) _ h
                      (rw (keeps.saved (assign_item id j items) s)
                        (assign_item-AreDistinct id j items d))
                      (λ k.
                        rw (keeps.saved (assign_item id j items) s)
                          (find_item-assign id j items k)))
            ]
            | inr not_put ↦ elim (Bool-cases (eq r.method (bytes "DELETE"))) [
              | inl delete ↦ elim (Option-cases (find_item id items)) [
                | inl n ↦
                    rw (serve_item, not_get, not_put, delete, n)
                      (http_error-none (bytes "Not found") 404 w h, d, update_missing id items n)
                | inr (j, found) ↦
                    rw (serve_item, not_get, not_put, delete, found)
                      (
                        write_header-none 204 w h,
                        rw (keeps.saved (delete_item id items) s)
                            (delete_item-AreDistinct id items d),
                        λ k.
                            rw (keeps.saved (delete_item id items) s)
                              (find_item-delete id items k d),
                      )
              ]
              | inr other ↦
                  rw (serve_item, not_get, not_put, other)
                    (http_error-none (bytes "Method not allowed") 405 w h, d, λ k. refl)
            ]
          ]
        ]

    item-Refined :
        (base : ℕ) (delay : ℤ) (w : ResponseWriter) (r : Request) (s : S)
        → w.status ≡ none
        → AreDistinct (storage.load s)
        → Refined
            (item platform encoding storage base delay w r s)
            (spec_request encoding base r (λ k. find_item k (storage.load s)))
    unfolding item
    item-Refined base delay w r s h d = elim (Bool-cases (ltb (length r.path) (base + 1))) [
      | inl short ↦ rw (short, item) (h, d, λ k. refl)
      | inr long ↦ rw (long, item) (serve_item-Refined (drop (base + 1) r.path) delay w r s h d)
    ]

    -- The handler of the items, called with any sequence of requests, each with a new writer whose writes
    -- may fail, and with a storage that has no key twice, does what a finite map does: each answer has the
    -- status of the specification, and in the end the storage holds the specification's map. A path that
    -- is too short for the slice that takes the identifier makes the handler panic: no status is sent,
    -- and the map is left. It is assumed that what is stored is read again, and that sleeping leaves it.
    pub serve-refines :
        (base : ℕ) (delay : ℤ) (rs : List (ResponseWriter × Request)) (s : S)
        → AreUnused rs
        → AreDistinct (storage.load s)
        → ((serve base delay rs s).0
            ≡ (spec_serve encoding base rs (λ k. find_item k (storage.load s))).0)
          × ((λ k. find_item k (storage.load (serve base delay rs s).1))
              ≡ (spec_serve encoding base rs (λ k. find_item k (storage.load s))).1)
    unfolding serve
    serve-refines base delay [] s unused d = (refl, refl)
    serve-refines base delay ((w, r) ∷ rs) s (h, unused) d =
        let m = (λ (k : Bytes). find_item k (storage.load s)) in
        let code = (spec_request encoding base r m).0 in
        let (status, d1, same) = item-Refined base delay w r s h d in
        let s1 = (item platform encoding storage base delay w r s).1 in
        let (codes, end_) = serve-refines base delay rs s1 unused d1 in
        let view : (λ k. find_item k (storage.load s1))
            ≡ (spec_request encoding base r (λ k. find_item k (storage.load s))).1 =
          fun_ext same in
        (
          ap (λ c. c ∷ (serve base delay rs s1).0) status
              ∙ ap (λ cs. code ∷ cs) (codes ∙ ap (λ m. (spec_serve encoding base rs m).0) view),
          end_ ∙ ap (λ m. (spec_serve encoding base rs m).1) view,
        )
