-- ===== src/Mock/Rest/Tests.antt =====
-- The items of a resource at concrete requests.
use httpio.Base.{◌≡◌, refl, pos, List, [], ◌∷◌, none, some, bytes}
use httpio.Http.{Request}
use httpio.Mock.{ResponseWriter}
use httpio.Mock.Rest.{find_item}
use httpio.Mock.Rest.Items.{spec_serve}
use httpio.Mock.Rest.Refines.{Keeps, serve, serve-refines}
use httpio.Mock.Fixtures.{program, platform, fresh, ask, storage, encoding, stored}

storage-Keeps : Keeps platform storage
storage-Keeps = record { saved = λ m s. refl; slept = λ n s. refl }

-- A creation, a change and two removals of an item.
abbrev requests : List (ResponseWriter × Request)
requests =
    (fresh, ask (bytes "PUT") (bytes "/r/3"))
    ∷ (fresh, ask (bytes "DELETE") (bytes "/r/1"))
    ∷ (fresh, ask (bytes "DELETE") (bytes "/r/1"))
    ∷ []

serve-refines_example :
    ((serve platform encoding storage 2 (pos 0) requests stored).0
      ≡ (spec_serve encoding 2 requests (λ k. find_item k stored.0)).0)
    × ((λ k. find_item k (serve platform encoding storage 2 (pos 0) requests stored).1.0)
        ≡ (spec_serve encoding 2 requests (λ k. find_item k stored.0)).1)
unfolding program
serve-refines_example =
    serve-refines platform encoding storage storage-Keeps 2 (pos 0) requests stored
      (refl, (refl, (refl, tt))) (refl, (refl, tt))

served :
    (serve platform encoding storage 2 (pos 0) requests stored).0
    ≡ some 200 ∷ some 204 ∷ some 404 ∷ []
unfolding program serve
served = refl

-- The path of the collection is too short for an identifier.
short :
    (serve platform encoding storage 2
      (pos 0)
      ((fresh, ask (bytes "GET") (bytes "/r")) ∷ [])
      stored).0
    ≡ none ∷ []
unfolding program serve
short = refl
