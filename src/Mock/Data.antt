-- ===== src/Mock/Data.antt =====
-- mockserver/mocksetup.go: the data of the ready-made server.
use httpio.Base.{ℕ, ◌+◌, ◌*◌, suc, zero, Bool, true, false, List, [], ◌∷◌, ◌++◌, Bytes, bytes, pos}
use httpio.Stream.Sse.{Event}

-- `type User`, `type Post`, `type Comment` and `type Product`; a price is in hundredths.
pub record User : Type 0 where
  pub id : ℕ
  pub name : Bytes
  pub email : Bytes
  pub username : Bytes

pub record Post : Type 0 where
  pub id : ℕ
  pub title : Bytes
  pub body : Bytes
  pub user_id : ℕ

pub record Comment : Type 0 where
  pub id : ℕ
  pub post_id : ℕ
  pub name : Bytes
  pub email : Bytes
  pub body : Bytes

pub record Product : Type 0 where
  pub id : ℕ
  pub name : Bytes
  pub price : ℕ
  pub description : Bytes
  pub category : Bytes
  pub in_stock : Bool

pub record MockData (J : Type 0) : Type 0 where
  pub users : List User
  pub posts : List Post
  pub comments : List Comment
  pub products : List Product
  pub events : List Event
  pub stream_items : List J
  pub ndjson_items : List J

abbrev user : ℕ → Bytes → Bytes → Bytes → User
user id name email username = record { id = id; name = name; email = email; username = username }

abbrev post : ℕ → ℕ → Bytes → Bytes → Post
post id user_id title body = record { id = id; title = title; body = body; user_id = user_id }

abbrev comment : ℕ → ℕ → Bytes → Bytes → Bytes → Comment
comment id post_id name email body = record {
  id = id;
  post_id = post_id;
  name = name;
  email = email;
  body = body;
}

abbrev product : ℕ → Bytes → ℕ → Bytes → Bytes → Bool → Product
product id name price description category in_stock = record {
  id = id;
  name = name;
  price = price;
  description = description;
  category = category;
  in_stock = in_stock;
}

abbrev event : Bytes → Bytes → Bytes → Event
event id name text = record { id = id; event = name; data_ = text; retry = pos 0 }

unfoldable pub default_users : List User
default_users =
    user 1 (bytes "John Doe") (bytes "john@example.com") (bytes "johndoe")
    ∷ user 2 (bytes "Jane Smith") (bytes "jane@example.com") (bytes "janesmith")
    ∷ user 3 (bytes "Mike Johnson") (bytes "mike@example.com") (bytes "mikej")
    ∷ user 4 (bytes "Sarah Williams") (bytes "sarah@example.com") (bytes "sarahw")
    ∷ user 5 (bytes "Robert Brown") (bytes "robert@example.com") (bytes "robertb")
    ∷ []

unfoldable pub default_posts : List Post
default_posts =
    post 1 1 (bytes "First post") (bytes "This is the first post content")
    ∷ post 2 1 (bytes "Second post") (bytes "This is the second post content")
    ∷ post 3 2 (bytes "Hello World") (bytes "Introduction post from Jane")
    ∷ post 4 3 (bytes "Technology News") (bytes "Latest updates in tech")
    ∷ post 5 4 (bytes "Travel Diaries") (bytes "My recent trip to Europe")
    ∷ []

unfoldable pub default_comments : List Comment
default_comments =
    comment 1 1 (bytes "Jane Smith") (bytes "jane@example.com") (bytes "Great post!")
    ∷ comment 2 1 (bytes "Mike Johnson") (bytes "mike@example.com") (bytes "Thanks for sharing")
    ∷ comment 3 2 (bytes "Sarah Williams") (bytes "sarah@example.com") (bytes "Interesting topic")
    ∷ comment 4 3 (bytes "John Doe") (bytes "john@example.com") (bytes "Welcome to the platform")
    ∷ comment 5 4 (bytes "Robert Brown") (bytes "robert@example.com") (bytes "Keep me updated")
    ∷ []

unfoldable pub default_products : List Product
default_products =
    product 1 (bytes "Laptop") 99999 (bytes "High-performance laptop") (bytes "Electronics") true
    ∷ product 2 (bytes "Smartphone") 69999 (bytes "Latest model") (bytes "Electronics") true
    ∷ product 3 (bytes "Headphones") 19999 (bytes "Noise-cancelling") (bytes "Audio") false
    ∷ product 4 (bytes "Coffee Maker") 8999 (bytes "Automatic drip") (bytes "Kitchen") true
    ∷ product 5 (bytes "Desk Chair") 24999 (bytes "Ergonomic design") (bytes "Furniture") true
    ∷ []

unfoldable pub default_events : List Event
default_events =
    event (bytes "1") (bytes "message") (bytes "{\"id\":1,\"message\":\"First event\"}")
    ∷ event (bytes "2") (bytes "update") (bytes "{\"id\":2,\"message\":\"Status update\"}")
    ∷ event (bytes "3") (bytes "message") (bytes "{\"id\":3,\"message\":\"Another message\"}")
    ∷ event (bytes "4") (bytes "alert") (bytes "{\"id\":4,\"message\":\"Important alert\"}")
    ∷ event (bytes "5") (bytes "message") (bytes "{\"id\":5,\"message\":\"Final message\"}")
    ∷ []

-- Packages fmt and time: numbers in decimal, and the objects of the two streams, whose last argument
-- is a reading of the clock.
pub record Objects (J : Type 0) : Type 0 where
  pub show_number : ℕ → Bytes
  pub stream_item : ℕ → Bytes → ℕ → J
  pub ndjson_item : ℕ → Bytes → ℕ → J

module _ {J V : Type 0} (objects : Objects J) (now : V → ℕ × V) where
  -- The rounds of a loop from `i` that are left, each with one reading of the clock.
  unfoldable pub stream_from : ℕ → ℕ → V → List J × V
  stream_from zero i v = ([], v)
  stream_from (suc n) i v =
      let (t, v1) = now v in
      let j =
        objects.stream_item i (bytes "Stream message " ++ objects.show_number i)
          (t + i * 60000000000) in
      let (js, v2) = stream_from n (suc i) v1 in (j ∷ js, v2)

  unfoldable pub ndjson_from : ℕ → ℕ → V → List J × V
  ndjson_from zero i v = ([], v)
  ndjson_from (suc n) i v =
      let (t, v1) = now v in
      let j = objects.ndjson_item i (bytes "NDJSON item " ++ objects.show_number i) t in
      let (js, v2) = ndjson_from n (suc i) v1 in (j ∷ js, v2)

  -- `generateMockData()`
  unfoldable pub generate_mock_data : V → MockData J × V
  unfolding stream_from ndjson_from default_users default_posts default_comments default_products
      default_events
  generate_mock_data v =
      let (stream, v1) = stream_from 10 1 v in
      let (ndjson, v2) = ndjson_from 10 1 v1 in
      (
        record {
          users = default_users;
          posts = default_posts;
          comments = default_comments;
          products = default_products;
          events = default_events;
          stream_items = stream;
          ndjson_items = ndjson;
        },
        v2,
      )
