-- ===== src/Protocol/Frame/Display.antt =====
-- The texts of message types and flags, `Display` in fernq-core/src/protocol/frame.rs.
use fernq.Prelude.{◌≡◌, refl, Bool, true, false, ◌++◌}
use fernq.Prelude.Bytes.{Bytes}
use fernq.Prelude.Text.{text}
use fernq.Protocol.Frame.{
  MessageType, header, body, ping, pong, MessageFlags, end_stream, end_channel, is_response,
  new_flags,
}

unfoldable pub display_type : MessageType → Bytes
display_type header = text "HEADER"
display_type body = text "Body"
display_type ping = text "PING"
display_type pong = text "PONG"

abbrev pub display_bool : Bool → Bytes
display_bool true = text "true"
display_bool false = text "false"

unfoldable pub display_flags : MessageFlags → Bytes
display_flags flags =
    text "[END_STREAM="
    ++ (display_bool (end_stream flags)
        ++ (text ", END_CHANNEL="
            ++ (display_bool (end_channel flags)
                ++ (text ", IS_RESPONSE=" ++ (display_bool (is_response flags) ++ text "]")))))

shown_flags :
    display_flags (new_flags true false true)
    ≡ text "[END_STREAM=true, END_CHANNEL=false, IS_RESPONSE=true]"
unfolding display_flags end_stream end_channel is_response new_flags text
shown_flags = refl
