-- ===== src/Server/Access/Audience.antt =====
-- Who may call what, as one table for HTTP and one for gRPC. The two chains of middleware of
-- app/iam/service/internal/server/http.go and grpc.go are compared with it.
use servora_iam.Prelude.{Bool, true, false, Option, none, some, Str, String}
use servora_iam.Server.Access.{Guard}
use servora_iam.Server.Operations.{
  Operation, create_application, delete_application, get_application, list_applications,
  regenerate_client_secret, update_application, change_password, login_by_email_password, logout,
  logout_all_devices, refresh_token, request_email_verification, request_password_reset,
  reset_password, signup_by_email, verify_email, create_user, current_user_info, delete_user,
  get_user, list_users, purge_user, restore_user, update_user,
}

pub data Audience : Type 0 where
  anyone nobody signed_in : Audience
  -- users with the relation to the platform
  related : String → Audience

unfoldable pub admits : Guard → Audience → Option Str → Bool
admits g anyone user = true
admits g nobody user = false
admits g signed_in none = false
admits g signed_in (some u) = true
admits g (related relation) none = false
admits g (related relation) (some u) = g.check u relation "platform"

unfoldable pub http_audience : Operation → Audience
http_audience create_application = related "admin"
http_audience delete_application = related "admin"
http_audience get_application = signed_in
http_audience list_applications = signed_in
http_audience regenerate_client_secret = related "admin"
http_audience update_application = related "admin"
http_audience change_password = signed_in
http_audience login_by_email_password = anyone
http_audience logout = signed_in
http_audience logout_all_devices = signed_in
http_audience refresh_token = anyone
http_audience request_email_verification = anyone
http_audience request_password_reset = anyone
http_audience reset_password = anyone
http_audience signup_by_email = anyone
http_audience verify_email = anyone
http_audience create_user = related "admin"
http_audience current_user_info = signed_in
http_audience delete_user = related "admin"
http_audience get_user = related "can_manage_users"
http_audience list_users = related "can_manage_users"
http_audience purge_user = related "admin"
http_audience restore_user = related "admin"
http_audience update_user = signed_in

unfoldable pub grpc_audience : Operation → Audience
grpc_audience create_application = nobody
grpc_audience delete_application = nobody
grpc_audience get_application = nobody
grpc_audience list_applications = nobody
grpc_audience regenerate_client_secret = nobody
grpc_audience update_application = nobody
grpc_audience change_password = signed_in
grpc_audience login_by_email_password = anyone
grpc_audience logout = signed_in
grpc_audience logout_all_devices = signed_in
grpc_audience refresh_token = anyone
grpc_audience request_email_verification = signed_in
grpc_audience request_password_reset = signed_in
grpc_audience reset_password = signed_in
grpc_audience signup_by_email = anyone
grpc_audience verify_email = signed_in
grpc_audience create_user = related "admin"
grpc_audience current_user_info = signed_in
grpc_audience delete_user = related "admin"
grpc_audience get_user = related "can_manage_users"
grpc_audience list_users = related "can_manage_users"
grpc_audience purge_user = related "admin"
grpc_audience restore_user = related "admin"
grpc_audience update_user = signed_in
