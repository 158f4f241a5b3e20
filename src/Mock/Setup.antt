-- ===== src/Mock/Setup.antt =====
-- mockserver/mocksetup.go: the ready-made server and its routes; `message` makes an object with one
-- text.
mod Tests
use httpio.Base.{ℕ, pos, List, [], ◌∷◌, Option, none, some, Bytes, bytes, is_empty, if◌then◌else◌}
use httpio.Mock.{MockServer, new_mock_server, url}
use httpio.Mock.Routes.{
  Platform, add_json_route, add_streaming_json_route, add_ndjson_route, add_sse_route,
}
use httpio.Mock.Rest.{Storage, Encoding, assign_item, add_rest_route}
use httpio.Mock.Data.{MockData, User, Post, Comment, Product, Objects, generate_mock_data}

-- Package encoding/json on the entities and their lists.
pub record Entities (J : Type 0) : Type 0 where
  pub user : User → J
  pub users : List User → J
  pub posts : List Post → J
  pub comments : List Comment → J
  pub products : List Product → J

-- `type MockSetup`; the map `RestData` is in the shared state.
pub record MockSetup (J S : Type 0) : Type 0 where
  pub server : MockServer S
  pub data_ : MockData J

module _ {J S : Type 0} (platform : Platform J S) (encoding : Encoding J) (storage : Storage J S)
    (entities : Entities J) (message : Bytes → Bytes → J) where
  abbrev json : Bytes → J → MockServer S → MockServer S
  unfolding add_json_route
  json path j =
      add_json_route platform path
        (record { status_code = 0; headers = []; data_ = some j; delay = pos 0 })

  abbrev failing : Bytes → ℕ → Bytes → MockServer S → MockServer S
  unfolding add_json_route
  failing path code text = add_json_route platform path (record {
    status_code = code;
    headers = [];
    data_ = some (message (bytes "error") text);
    delay = pos 0;
  })

  abbrev slow : Bytes → ℕ → J → MockServer S → MockServer S
  unfolding add_json_route
  slow path delay j =
      add_json_route platform path
        (record { status_code = 0; headers = []; data_ = some j; delay = pos delay })

  -- The routes with a fixed answer.
  abbrev json_routes : User → MockData J → MockServer S → MockServer S
  unfolding json failing slow
  json_routes first d ms = failing (bytes "/api/unauthorized") 401 (bytes "Unauthorized") (
      failing (bytes "/api/error") 500 (bytes "Internal Server Error") (
        slow (bytes "/api/slow") 2000000000
          (message (bytes "message") (bytes "This response was delayed"))
          (json (bytes "/api/products") (entities.products d.products) (
            json (bytes "/api/comments") (entities.comments d.comments) (
              json (bytes "/api/posts") (entities.posts d.posts) (
                json (bytes "/api/users/1") (entities.user first)
                  (json (bytes "/api/users") (entities.users d.users) ms)))))))

  -- `setupDefaultRoutes()`, whose `Users[0]` is `first`.
  unfoldable pub default_routes : User → MockData J → MockServer S → MockServer S
  unfolding json_routes add_rest_route add_sse_route add_ndjson_route add_streaming_json_route
  default_routes first d ms = add_rest_route platform encoding storage (bytes "/api/resources") (
      add_sse_route platform (bytes "/api/events") d.events 500 (
        add_ndjson_route platform (bytes "/api/ndjson") d.ndjson_items 500 (
          add_streaming_json_route platform (bytes "/api/stream") d.stream_items 500
            (json_routes first d ms))))

  -- `setupDefaultRoutes()`; without a user it panics, which is `none`.
  unfoldable pub setup_default_routes : MockData J → MockServer S → Option (MockServer S)
  unfolding default_routes
  setup_default_routes d ms = elim d.users [
    | [] ↦ none
    | first ∷ users ↦ some (default_routes first d ms)
  ]

  -- `for _, user := range mockData.Users { restData[fmt.Sprintf("%d", user.ID)] = user }`
  unfoldable pub rest_data : (ℕ → Bytes) → List User → List (Bytes × J) → List (Bytes × J)
  unfolding assign_item
  rest_data show_number [] items = items
  rest_data show_number (u ∷ users) items =
      rest_data show_number users (assign_item (show_number u.id) (entities.user u) items)

  -- `NewMockSetup(address)`
  unfoldable pub new_mock_setup :
      {V : Type 0} → Objects J → (V → ℕ × V) → Bytes → V → S → Option (MockSetup J S) × S
  unfolding setup_default_routes rest_data generate_mock_data
  new_mock_setup objects now address v s =
      let d = (generate_mock_data objects now v).0 in
      let server = new_mock_server (if is_empty address then bytes "localhost:8080" else address) in
      (
        elim (setup_default_routes d server) [
          | none ↦ none
          | some ms ↦ some (record { server = ms; data_ = d })
        ],
        storage.save (rest_data objects.show_number d.users []) s,
      )

-- `URL(path)` passes the call on.
unfoldable pub setup_url : {J S : Type 0} → MockSetup J S → Bytes → Bytes
unfolding url
setup_url setup path = url setup.server path
