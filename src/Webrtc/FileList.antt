-- ===== src/Webrtc/FileList.antt =====
-- How the file list reaches the receiving peer, with the sending peer's PIN rounds before it, in
-- `send_offer` and `accept_offer` of packages/core/src/webrtc/webrtc.rs.
use aika.Common.{◌≡◌, refl, ap, String, List, [], ◌∷◌, ◌++◌, map}
use aika.Model.{FileDto}
use aika.Webrtc.Pin.{
  VerifyPinResult, Verdict, passed, rejected, broken, Verified, ChallengePinResult, ok,
  pin_required, too_many_attempts, parse_error, Challenged, granted, refused, abandoned, Handled,
  after_pin, on_response, handle_pin, receiving_response, closing_response,
}

-- `RtcPinSendingResponse`, the responses of `send_offer` to the PINs of the receiving peer, as
-- `accept_offer` reads them.
unfoldable pub sending_response : VerifyPinResult → ChallengePinResult (List FileDto)
sending_response VerifyPinResult.pin_required = pin_required
sending_response VerifyPinResult.too_many_attempts = too_many_attempts

-- The file list is sent when the PIN was shown.
unfoldable pub file_list_response :
    List FileDto → Verdict → List (ChallengePinResult (List FileDto))
file_list_response files passed = ok files ∷ []
file_list_response files rejected = []
file_list_response files broken = []

unfoldable pub sending_responses :
    List FileDto → Verified → List (ChallengePinResult (List FileDto))
unfolding sending_response file_list_response
sending_responses files v = map sending_response v.results ++ file_list_response files v.verdict

-- `accept_offer` from the first response to the file list.
unfoldable pub receive_file_list :
    List String → List (ChallengePinResult (List FileDto)) → Handled (List FileDto)
unfolding handle_pin
receive_file_list pins [] = record { sent = []; challenged = abandoned }
receive_file_list pins (ok files ∷ responses) = record { sent = []; challenged = granted files }
receive_file_list pins (pin_required ∷ responses) = handle_pin pins responses
receive_file_list pins (too_many_attempts ∷ responses) = record {
  sent = [];
  challenged = abandoned;
}
receive_file_list pins (parse_error ∷ responses) = record { sent = []; challenged = abandoned }

-- The end of a challenge whose grant is the file list.
abbrev pub with_files : List FileDto → Challenged (Unit {0}) → Challenged (List FileDto)
with_files files (granted _) = granted files
with_files files refused = refused
with_files files abandoned = abandoned

abbrev pub listed : List FileDto → Handled (Unit {0}) → Handled (List FileDto)
listed files h = record { sent = h.sent; challenged = with_files files h.challenged }

-- The two peers' responses differ in what they grant alone.
pub handle_pin-listed :
    (files : List FileDto) (results : List VerifyPinResult) (verdict : Verdict) (pins : List String)
    → handle_pin pins (map sending_response results ++ file_list_response files verdict)
      ≡ listed files (handle_pin pins (map receiving_response results ++ closing_response verdict))
unfolding handle_pin on_response sending_response file_list_response receiving_response
    closing_response
handle_pin-listed files results verdict [] = refl
handle_pin-listed files [] passed (pin ∷ pins) = refl
handle_pin-listed files [] rejected (pin ∷ pins) = refl
handle_pin-listed files [] broken (pin ∷ pins) = refl
handle_pin-listed files (VerifyPinResult.too_many_attempts ∷ results) verdict (pin ∷ pins) = refl
handle_pin-listed files (VerifyPinResult.pin_required ∷ results) verdict (pin ∷ pins) =
    ap (after_pin pin) (handle_pin-listed files results verdict pins)
