-- ===== src/Server/Operations.antt =====
-- The operations of the service and their names over HTTP and gRPC: the constants of
-- api/gen/go/servora/iam/service/v1/i_authn_http.pb.go, i_user_http.pb.go and i_application_http.pb.go,
-- and of api/gen/go/servora/authn/service/v1/authn_grpc.pb.go and user/service/v1/user_grpc.pb.go.
use servora_iam.Prelude.{Option, none, some, Str, bytes}

-- The constants of the HTTP operations.
pub data Operation : Type 0 where
  create_application delete_application get_application list_applications : Operation
  regenerate_client_secret update_application : Operation
  change_password login_by_email_password logout logout_all_devices : Operation
  refresh_token request_email_verification request_password_reset reset_password : Operation
  signup_by_email verify_email : Operation
  create_user current_user_info delete_user get_user : Operation
  list_users purge_user restore_user update_user : Operation

unfoldable pub operation : Operation → Str
operation create_application = bytes "/servora.iam.service.v1.ApplicationService/CreateApplication"
operation delete_application = bytes "/servora.iam.service.v1.ApplicationService/DeleteApplication"
operation get_application = bytes "/servora.iam.service.v1.ApplicationService/GetApplication"
operation list_applications = bytes "/servora.iam.service.v1.ApplicationService/ListApplications"
operation regenerate_client_secret =
    bytes "/servora.iam.service.v1.ApplicationService/RegenerateClientSecret"
operation update_application = bytes "/servora.iam.service.v1.ApplicationService/UpdateApplication"
operation change_password = bytes "/servora.iam.service.v1.AuthnService/ChangePassword"
operation login_by_email_password =
    bytes "/servora.iam.service.v1.AuthnService/LoginByEmailPassword"
operation logout = bytes "/servora.iam.service.v1.AuthnService/Logout"
operation logout_all_devices = bytes "/servora.iam.service.v1.AuthnService/LogoutAllDevices"
operation refresh_token = bytes "/servora.iam.service.v1.AuthnService/RefreshToken"
operation request_email_verification =
    bytes "/servora.iam.service.v1.AuthnService/RequestEmailVerification"
operation request_password_reset = bytes "/servora.iam.service.v1.AuthnService/RequestPasswordReset"
operation reset_password = bytes "/servora.iam.service.v1.AuthnService/ResetPassword"
operation signup_by_email = bytes "/servora.iam.service.v1.AuthnService/SignupByEmail"
operation verify_email = bytes "/servora.iam.service.v1.AuthnService/VerifyEmail"
operation create_user = bytes "/servora.iam.service.v1.UserService/CreateUser"
operation current_user_info = bytes "/servora.iam.service.v1.UserService/CurrentUserInfo"
operation delete_user = bytes "/servora.iam.service.v1.UserService/DeleteUser"
operation get_user = bytes "/servora.iam.service.v1.UserService/GetUser"
operation list_users = bytes "/servora.iam.service.v1.UserService/ListUsers"
operation purge_user = bytes "/servora.iam.service.v1.UserService/PurgeUser"
operation restore_user = bytes "/servora.iam.service.v1.UserService/RestoreUser"
operation update_user = bytes "/servora.iam.service.v1.UserService/UpdateUser"

-- The methods of the gRPC services.
unfoldable pub grpc_method : Operation → Option Str
grpc_method create_application = none
grpc_method delete_application = none
grpc_method get_application = none
grpc_method list_applications = none
grpc_method regenerate_client_secret = none
grpc_method update_application = none
grpc_method change_password = some (bytes "/servora.authn.service.v1.AuthnService/ChangePassword")
grpc_method login_by_email_password =
    some (bytes "/servora.authn.service.v1.AuthnService/LoginByEmailPassword")
grpc_method logout = some (bytes "/servora.authn.service.v1.AuthnService/Logout")
grpc_method logout_all_devices =
    some (bytes "/servora.authn.service.v1.AuthnService/LogoutAllDevices")
grpc_method refresh_token = some (bytes "/servora.authn.service.v1.AuthnService/RefreshToken")
grpc_method request_email_verification =
    some (bytes "/servora.authn.service.v1.AuthnService/RequestEmailVerification")
grpc_method request_password_reset =
    some (bytes "/servora.authn.service.v1.AuthnService/RequestPasswordReset")
grpc_method reset_password = some (bytes "/servora.authn.service.v1.AuthnService/ResetPassword")
grpc_method signup_by_email = some (bytes "/servora.authn.service.v1.AuthnService/SignupByEmail")
grpc_method verify_email = some (bytes "/servora.authn.service.v1.AuthnService/VerifyEmail")
grpc_method create_user = some (bytes "/servora.user.service.v1.UserService/CreateUser")
grpc_method current_user_info = some (bytes "/servora.user.service.v1.UserService/CurrentUserInfo")
grpc_method delete_user = some (bytes "/servora.user.service.v1.UserService/DeleteUser")
grpc_method get_user = some (bytes "/servora.user.service.v1.UserService/GetUser")
grpc_method list_users = some (bytes "/servora.user.service.v1.UserService/ListUsers")
grpc_method purge_user = some (bytes "/servora.user.service.v1.UserService/PurgeUser")
grpc_method restore_user = some (bytes "/servora.user.service.v1.UserService/RestoreUser")
grpc_method update_user = some (bytes "/servora.user.service.v1.UserService/UpdateUser")
