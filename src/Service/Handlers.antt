-- ===== src/Service/Handlers.antt =====
-- The handlers of app/iam/service/internal/service/authn.go, user.go and application.go that hand
-- the request on to a use case. The generated validators of the requests have no rules. The
-- pagination of github.com/Servora-Kit/servora/core/pagination is a parameter.
use servora_iam.Prelude.{ℕ, Bool, true, Option, List, Str}
use servora_iam.Exec.{pure, ◌>>=◌, ◌>>◌}
use servora_iam.Platform.World.{Env, Action}
use servora_iam.Data.Mapper.{User}
use servora_iam.Data.ApplicationRepo.{Application}
use servora_iam.Biz.Config.{Config}
use servora_iam.Biz.Authn.{TokenPair}
use servora_iam.Biz.Sessions
use servora_iam.Biz.Links
use servora_iam.Biz.Users
use servora_iam.Biz.Applications

-- ExtractPage, with the page and its size in 32 bits, and BuildPageResponse.
pub record Pagination : Type 1 where
  pub Request : Type 0
  pub Response : Type 0
  pub extract_page : Option Request → ℕ × ℕ
  pub build_page_response : (total page page_size : ℕ) → Response

pub record UpdateApplicationRequest : Type 0 where
  pub id : Str
  pub data_of : Application

-- `data.Id = req.Id`
unfoldable pub with_request_id : UpdateApplicationRequest → Application
with_request_id req = record req.data_of { id = req.id }

module _ ⦃e : Env⦄ (cfg : Config) where
  unfoldable pub login_by_email_password : (email password : Str) → Action TokenPair
  login_by_email_password email password = do
    token_pair ← Sessions.login_by_email_password cfg email password
    pure (record {
      access_token = token_pair.access_token;
      refresh_token = token_pair.refresh_token;
      expires_in = token_pair.expires_in;
    })

  unfoldable pub refresh_token : (token : Str) → Action TokenPair
  refresh_token token = do
    token_pair ← Sessions.refresh cfg token
    pure (record {
      access_token = token_pair.access_token;
      refresh_token = token_pair.refresh_token;
      expires_in = token_pair.expires_in;
    })

  -- The handlers below return Success.
  unfoldable pub logout : (refresh_token : Str) → Action Bool
  logout refresh_token = do Sessions.logout cfg refresh_token; pure true

  unfoldable pub request_email_verification : (email : Str) → Action Bool
  request_email_verification email = do Links.request_email_verification cfg email; pure true

  unfoldable pub verify_email : (token : Str) → Action Bool
  verify_email token = do Links.verify_email cfg token; pure true

  unfoldable pub request_password_reset : (email : Str) → Action Bool
  request_password_reset email = do Links.request_password_reset cfg email; pure true

module _ ⦃e : Env⦄ where
  unfoldable pub get_user : (id : Str) → Action User
  get_user id = Users.get_user id

  unfoldable pub create_user : Config → (data_of : User) → (password : Str) → Action User
  create_user cfg data_of password = Users.create_user cfg data_of password

  unfoldable pub delete_user : (id : Str) → Action Bool
  delete_user id = Users.delete_user id

  unfoldable pub purge_user : (id : Str) → Action Bool
  purge_user id = Users.purge_user id

  unfoldable pub restore_user : (id : Str) → Action User
  restore_user id = Users.restore_user id

  unfoldable pub get_application : (id : Str) → Action Application
  get_application id = Applications.get id

  unfoldable pub update_application : UpdateApplicationRequest → Action Application
  update_application req = Applications.update (with_request_id req)

  unfoldable pub delete_application : (id : Str) → Action Bool
  delete_application id = do Applications.delete id; pure true

  unfoldable pub regenerate_client_secret : (id : Str) → Action Str
  regenerate_client_secret id = Applications.regenerate_client_secret id

  module _ (p : Pagination) where
    unfoldable pub list_users : Option p.Request → Action (List User × p.Response)
    list_users pagination = do
      let (page, page_size) = p.extract_page pagination
      (users, total) ← Users.list_users page page_size
      pure (users, p.build_page_response total page page_size)

    unfoldable pub list_applications : Option p.Request → Action (List Application × p.Response)
    list_applications pagination = do
      let (page, page_size) = p.extract_page pagination
      (apps, total) ← Applications.list page page_size
      pure (apps, p.build_page_response total page page_size)
