-- ===== src/Http.antt =====
-- What a handler of gin is given and gives: the request with its context, the state of the server, the
-- response. internal/router/router.go: `Deps`, what main injects. gin, net/http and the codecs of the
-- bodies are parameters.
use pluto_feed.Prelude.{ℕ, Option, List, Bytes}
use pluto_feed.Prelude.Int.{ℤ}
use pluto_feed.Apierror.{Act, Response}
use pluto_feed.Model
use pluto_feed.Model.{User}
use pluto_feed.Sql.{Sql}
use pluto_feed.Repository.Outbox.{Codec}
use pluto_feed.Cache.{Redis, Json}
use pluto_feed.Disk.{Files, Disk}
use pluto_feed.Rates.{Rates, RateRedis}
use pluto_feed.Jwtutil.{Jwt, Manager}
use pluto_feed.World.{World}
use pluto_feed.Service.Views.{PostView, CommentView, Page}
use pluto_feed.Service.Social.{FollowUserView}
use pluto_feed.Service.Profile.{ProfileView}
use pluto_feed.Service.Post.{Envelope}
use pluto_feed.Service.Auth.{TokenPair, Bcrypt, Moment}
use pluto_feed.Service.Upload.{FileHeader, Chance}

-- A request, with the time and the random choices that its handling takes from outside. `form_file` is
-- `FormFile("file")` when the body is cut at a number of bytes.
pub record Request : Type 0 where
  pub authorization : Bytes
  pub client_ip : Bytes
  pub param_id : Bytes
  pub query : Bytes → Bytes
  pub body : Bytes
  pub form_file : ℕ → Option FileHeader
  pub moment : Moment
  pub later : ℤ  -- a second reading of the clock
  pub chance : Chance

-- The request with the uid of its context, which a middleware sets.
pub record Context : Type 0 where
  pub request : Request
  pub uid : Option ℤ

-- What `OK` is called with. `nil` is left out of the response.
pub data Payload : Type 0 where
  nil status_up : Payload
  tokens : TokenPair → Payload
  me : User → Payload
  post : PostView → Payload
  posts : List PostView → Payload
  feed : Page PostView → Payload
  comment : CommentView → Payload
  comments : Page CommentView → Payload
  follows : Page FollowUserView → Payload
  profile : ProfileView → Payload
  url : Bytes → Payload

pub record Server : Type 0 where
  pub world : World
  pub files : Files
  pub rates : Rates

abbrev pub Reply : Type 0
Reply = Response Payload × Server

abbrev pub Handler : Type 0
Handler = Context → Server → Reply

pub record RegisterReq : Type 0 where
  pub nickname : Bytes
  pub password : Bytes

pub record LoginReq : Type 0 where
  pub nickname : Bytes
  pub password : Bytes

pub record RefreshReq : Type 0 where
  pub refresh_token : Bytes

pub record LogoutReq : Type 0 where
  pub refresh_token : Bytes

pub record CreateCommentReq : Type 0 where
  pub content : Bytes

pub record CreatePostReq : Type 0 where
  pub image_urls : List Bytes
  pub content : Bytes
  pub tags : List Bytes

-- `ShouldBindJSON` at the bodies; `none` is its error.
pub record Binders : Type 0 where
  pub register : Bytes → Option RegisterReq
  pub login : Bytes → Option LoginReq
  pub refresh : Bytes → Option RefreshReq
  pub logout : Bytes → Option LogoutReq
  pub comment : Bytes → Option CreateCommentReq
  pub post : Bytes → Option CreatePostReq

-- The services share the database and the cache; what they call outside of the program comes with them.
pub record Deps : Type 1 where
  pub sql : Sql
  pub cache : Option Redis
  pub event_json : Codec
  pub uid_json : Json ℤ
  pub post_json : Json (Envelope Model.Post)
  pub user_json : Json (Envelope User)
  pub hot_json : Json (Option (List PostView))
  pub format_minute : ℤ → Bytes
  pub trim_space : Bytes → Bytes
  pub digest : Bytes → Bytes
  pub bcrypt : Bcrypt
  pub jwt : Jwt
  pub manager : Manager
  pub disk : Disk
  pub detect_content_type : Bytes → Bytes
  pub binders : Binders
  pub rdb : Option RateRedis
  pub rate_ip_per_min : ℤ
  pub rate_user_per_min : ℤ
  pub upload_dir : Bytes

module _ {A : Type 0} where
  abbrev pub in_world : Act World A → Act Server A
  in_world act s = ((act s.world).0, record s { world = (act s.world).1 })

  abbrev pub in_files : Act Files A → Act Server A
  in_files act s = ((act s.files).0, record s { files = (act s.files).1 })
