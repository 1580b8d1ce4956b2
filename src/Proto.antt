-- ===== src/Proto.antt =====
-- crates/anago-core/src/proto.rs: the bodies of the API and its error codes.
pub mod Codes
pub mod Fields
pub mod Codec
pub mod RoundTrip
mod Tests
use anago.Prelude.{
  ◌≡◌, Bool, true, false, List, [], ◌∷◌, Option, none, some, ◌==◌, list_eq, nat_eq, if◌then◌else◌,
}
use anago.Text.{Text, lit}
use anago.State
use anago.State.{JoinRejection, unknown_code, code_not_usable}

pub record JoinRequest : Type 0 where
  pub code : Text
  pub name : Text
  pub public_key : Text

pub record JoinResponse : Type 0 where
  pub name : Text
  pub address : Text
  pub subnet : Text
  pub token : Text
  pub server_public_key : Text
  pub server_endpoint : Text
  pub server_address : Text

pub record PeerInfo : Type 0 where
  pub name : Text
  pub public_key : Text
  pub address : Text

pub record HubInfo : Type 0 where
  pub subnet : Text
  pub server_public_key : Text
  pub server_endpoint : Text
  pub server_address : Text

pub record PeersResponse : Type 0 where
  pub peers : List PeerInfo
  pub hub : Option HubInfo

pub data ErrorCode : Type 0 where
  invalid_code invalid_name name_taken invalid_public_key subnet_full unauthorized not_found :
      ErrorCode
  bad_request internal : ErrorCode

pub record ApiError : Type 0 where
  pub code : ErrorCode
  pub message : Text

unfoldable pub as_str : ErrorCode → Text
as_str invalid_code = lit "invalid_code"
as_str invalid_name = lit "invalid_name"
as_str name_taken = lit "name_taken"
as_str invalid_public_key = lit "invalid_public_key"
as_str subnet_full = lit "subnet_full"
as_str unauthorized = lit "unauthorized"
as_str not_found = lit "not_found"
as_str bad_request = lit "bad_request"
as_str internal = lit "internal"

unfoldable pub from_wire : Text → Option ErrorCode
from_wire s =
    if s == lit "invalid_code"
    then some invalid_code
    else if s == lit "invalid_name"
    then some invalid_name
    else if s == lit "name_taken"
    then some name_taken
    else if s == lit "invalid_public_key"
    then some invalid_public_key
    else if s == lit "subnet_full"
    then some subnet_full
    else if s == lit "unauthorized"
    then some unauthorized
    else if s == lit "not_found"
    then some not_found
    else if s == lit "bad_request"
    then some bad_request
    else if s == lit "internal"
    then some internal
    else none

-- `JoinRejection::error_code`.
unfoldable pub error_code : JoinRejection → ErrorCode
error_code unknown_code = invalid_code
error_code (code_not_usable status) = invalid_code
error_code State.name_taken = name_taken
error_code State.subnet_full = subnet_full
