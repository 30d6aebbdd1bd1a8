-- ===== src/Gateway/Custody.antt =====
-- src/gateway/authorization.rs and the grant checks of src/gateway/mod.rs: the verification of a grant
-- under the configured authorities, and the binding of a request to it.
use kapsel.Base.{List, [], ◌∷◌, Bytes, Result, ok, err, ◌>>=◌}
use kapsel.Authority.Grant
use kapsel.Authority.Grant.{
  Crypto, AuthorizationTrust, AuthorizationInputField, AuthorizationGrantError,
  ValidatedAuthorizationGrant,
}
use kapsel.Gateway.Types
use kapsel.Gateway.Types.{
  G, GatewayError, InputField, VerifiedAuthorization, AuthorizedRequest, SetDeploymentImageRequest,
  invalid_input, invalid_authorization_grant, untrusted_authorization_grant, try_from_request, bind,
}

unfoldable pub map_input_field : AuthorizationInputField → InputField
map_input_field Grant.authorization_id = Types.authorization_id
map_input_field Grant.operation_id = Types.operation_id
map_input_field Grant.namespace = Types.namespace
map_input_field Grant.deployment = Types.deployment
map_input_field Grant.container = Types.container
map_input_field Grant.immutable_image_digest = Types.immutable_image_digest

unfoldable pub map_authorization_error : AuthorizationGrantError → GatewayError
unfolding map_input_field
map_authorization_error (Grant.invalid_input field) = invalid_input (map_input_field field)
map_authorization_error Grant.invalid = invalid_authorization_grant
map_authorization_error Grant.untrusted = untrusted_authorization_grant

unfoldable pub retain_verified_grant : ValidatedAuthorizationGrant → Bytes → VerifiedAuthorization
retain_verified_grant verified bytes = record {
  authorization = verified.authorization;
  signer_key_id = verified.signer_key_id;
  grant_digest = verified.grant_digest;
  signed_grant = bytes;
}

unfoldable pub retain :
    Bytes → Result AuthorizationGrantError ValidatedAuthorizationGrant → G VerifiedAuthorization
unfolding retain_verified_grant map_authorization_error
retain bytes (ok verified) = ok (retain_verified_grant verified bytes)
retain bytes (err error) = err (map_authorization_error error)

module _ (c : Crypto) where
  unfoldable pub verify_authorization_grant : Bytes → AuthorizationTrust → G VerifiedAuthorization
  unfolding retain
  verify_authorization_grant bytes trust =
      retain bytes (Grant.verify_authorization_grant c bytes trust)

  -- The loop goes on after an untrusted grant only.
  unfoldable pub verify_grant_with : List AuthorizationTrust → Bytes → G VerifiedAuthorization
  unfolding verify_authorization_grant
  verify_grant_with [] bytes = err untrusted_authorization_grant
  verify_grant_with (trust ∷ authorities) bytes = elim (verify_authorization_grant bytes trust) [
    | ok verified ↦ ok verified
    | err untrusted_authorization_grant ↦ verify_grant_with authorities bytes
    | err error ↦ err error
  ]

  unfoldable pub bind_authorization :
      List AuthorizationTrust → SetDeploymentImageRequest → Bytes → G AuthorizedRequest
  unfolding verify_grant_with
  bind_authorization authorities request signed_grant = do
    verified ← verify_grant_with authorities signed_grant
    valid ← try_from_request request
    bind valid verified
