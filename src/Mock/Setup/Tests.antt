-- ===== src/Mock/Setup/Tests.antt =====
-- The ready-made server at concrete requests.
use httpio.Base.{ℕ, ◌≡◌, refl, ◌++◌, ◌+◌, [], ◌∷◌, Option, none, some, Bytes, bytes}
use httpio.Mock.{MockServer, new_mock_server, handler}
use httpio.Mock.Setup.{
  Entities, MockSetup, new_mock_setup, setup_default_routes, default_routes, rest_data,
}
use httpio.Mock.Data.{Objects, generate_mock_data}
use httpio.Mock.Fixtures.{program, Shared, platform, fresh, ask, server, storage, encoding, stored}

-- Texts stand for the JSON values.
abbrev entities : Entities Bytes
entities = record {
  user = λ u. u.name;
  users = λ us. bytes "users";
  posts = λ ps. bytes "posts";
  comments = λ cs. bytes "comments";
  products = λ ps. bytes "products";
}

abbrev objects : Objects Bytes
objects = record {
  show_number = λ n. (n + 48) ∷ [];
  stream_item = λ i text t. text;
  ndjson_item = λ i text t. text;
}

-- The server is made at noon, with the users in the map of resources.
abbrev made : Option (MockSetup Bytes Shared) × Shared
unfolding program new_mock_setup setup_default_routes default_routes rest_data generate_mock_data
made =
    new_mock_setup platform encoding storage entities (λ k text. text) {V = ℕ} objects
      (λ v. (12, v)) [] 0 ([], 0)

abbrev server_or : Option (MockSetup Bytes Shared) → MockServer Shared
server_or none = server
server_or (some setup) = setup.server

abbrev ready : MockServer Shared
unfolding program made new_mock_server
ready = server_or made.0

ready_routes :
    ((handler ready fresh (ask (bytes "GET") (bytes "/api/users/1")) stored).0.body
      ≡ bytes "John Doe" ++ 10 ∷ [])
    × ((handler ready fresh (ask (bytes "GET") (bytes "/api/unauthorized")) stored).0.status
        ≡ some 401)
    × ((handler ready fresh (ask (bytes "GET") (bytes "/api/slow")) stored).1.1 ≡ 1)
    × ((handler ready fresh (ask (bytes "GET") (bytes "/api/resources/1")) stored).0.status
        ≡ some 404)
unfolding program ready made
ready_routes = (refl, refl, refl, refl)

-- The first user created gets the number six.
resources_made :
    (made.1.0
      ≡ (bytes "1", bytes "John Doe")
        ∷ (bytes "2", bytes "Jane Smith")
        ∷ (bytes "3", bytes "Mike Johnson")
        ∷ (bytes "4", bytes "Sarah Williams")
        ∷ (bytes "5", bytes "Robert Brown")
        ∷ [])
unfolding program made
resources_made = refl
