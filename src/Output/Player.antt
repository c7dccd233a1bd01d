-- ===== src/Output/Player.antt =====
-- internal/servent/http.go: the stream to a media player, after the request has been read. Texts of
-- the response that do not depend on the channel are left out: a write of the response's head is
-- the write of its fields.
pub mod Delivery
mod Tests
use peercast_mi.Base.{
  ℕ, Bool, true, false, not, ◌&&◌, ◌||◌, ◌==◌, nat_eq, string_eq, keep, if◌then◌else◌, List, [],
  ◌∷◌, Option, none, some, String, length,
}
use peercast_mi.Content.{Content, blank, header_bytes, packets_after, has_data}
use peercast_mi.Channel.{Channel, can_start_content}
use peercast_mi.Info.{ChannelInfo}
use peercast_mi.Output.{Connection, write_atom, on_error}

-- `sanitizeHeaderValue`, of a text as the list of its bytes.
unfoldable pub sanitize_header_value : List ℕ → List ℕ
sanitize_header_value = keep (λ c. not (c == b'\r' || c == b'\n'))

-- `mimeType`, as the response gives it.
unfoldable pub mime_type_of : ChannelInfo → String
mime_type_of info = if info.mime_type == "" then "video/x-flv" else info.mime_type

-- The loop's variables: the connection, the packet written last, the zero one if none was, and
-- whether packets that cannot start a stream are passed over.
pub record PlayerState : Type 0 where
  pub conn : Connection (List ℕ)
  pub last : Content
  pub waiting_for_keyframe : Bool

-- What a wait meets: the stream is closed, the header has changed, new data is there, or, before
-- the stream starts, information on the channel, or a time that is over.
pub data Wake : Type 0 where
  closed header_changed info_changed written timed_out : Wake

pub data Wait : Type 0 where
  go stop gateway_timeout still_waiting : Wait

-- The wait for the channel's type: `info` is what the channel says after each notice of it.
unfoldable pub wait_for_info : ChannelInfo → List (Wake × ChannelInfo) → Wait × ChannelInfo
wait_for_info info [] = if info.kind == "" then (still_waiting, info) else (go, info)
wait_for_info info ((wake, next) ∷ wakes) =
    let rest = wait_for_info next wakes in
    let again = wait_for_info info wakes in
    if not (info.kind == "") then (go, info) else elim wake [
      | closed ↦ (stop, info)
      | timed_out ↦ (gateway_timeout, info)
      | info_changed ↦ rest
      | _ ↦ again
    ]

module _ (works : ℕ → Bool) where
  -- The header before the first packet: none is written if there is none.
  unfoldable pub write_first_header : Connection (List ℕ) → List ℕ → Connection (List ℕ) × Bool
  write_first_header c [] = (c, true)
  write_first_header c (b ∷ bytes) = write_atom works c (b ∷ bytes)

  -- `writeHeaderUpdate`
  unfoldable pub write_header_update : PlayerState → List ℕ → PlayerState × Bool
  write_header_update s [] = (s, true)
  write_header_update s (b ∷ bytes) =
      on_error (write_atom works s.conn (b ∷ bytes)) (λ c. (record s { conn = c }, false))
        (λ c. (record { conn = c; last = blank; waiting_for_keyframe = true }, true))

  -- The loop over the packets; `can_start` is what the channel says of one.
  unfoldable pub write_packets : (Content → Bool) → PlayerState → List Content → PlayerState × Bool
  write_packets can_start s [] = (s, true)
  write_packets can_start s (p ∷ ps) =
      if s.waiting_for_keyframe && not (can_start p)
      then write_packets can_start (record s { last = p }) ps
      else on_error (write_atom works s.conn p.payload)
          (λ c. (record { conn = c; last = s.last; waiting_for_keyframe = false }, false))
          (λ c.
            write_packets can_start (record { conn = c; last = p; waiting_for_keyframe = false })
              ps)

  -- What follows an update of the header that was asked for, if it did not fail.
  unfoldable pub after_header : {A : Type 0} → Channel A → PlayerState × Bool → PlayerState × Bool
  after_header ch (s, false) = (s, false)
  after_header ch (s, true) =
      write_packets (can_start_content ch) s (packets_after ch.buffer s.last)

  -- A round of the loop up to a wait: a pending notice of the header is served first.
  unfoldable pub player_round : {A : Type 0} → Channel A → Bool → PlayerState → PlayerState × Bool
  player_round ch pending s =
      if pending
      then after_header ch (write_header_update s (header_bytes ch.buffer))
      else after_header ch (s, true)
