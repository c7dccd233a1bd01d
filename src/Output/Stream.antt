-- ===== src/Output/Stream.antt =====
-- internal/servent/pcp.go: what a stream to a relay sends, and where it stands in the channel's
-- data. The flag of an eviction and the peer are the channel's (`Channel`).
use peercast_mi.Base.{
  ℕ, zero, suc, ◌+◌, ◌-◌, ◌*◌, ◌%◌, ◌^◌, bit_or, Bool, true, false, not, ◌&&◌, ◌||◌, ◌==◌, nat_eq,
  ltb, if◌then◌else◌, List, [], ◌∷◌, none, some, length, take, drop, max,
}
use peercast_mi.Pcp.{GnuId, PcpLibrary}
use peercast_mi.Content.{Content, header_bytes, has_data, oldest_pos, content_position, pos_before}
use peercast_mi.Channel.{Channel}
use peercast_mi.Output.{Connection, write_atom, on_error}

-- 5 seconds.
abbrev pub output_queue_timeout : ℕ
output_queue_timeout = 5 * 10 ^ 9

abbrev pub max_content_body_len : ℕ
max_content_body_len = 15 * 1024

-- `started` is 0 for the zero time.
pub record StreamCursor : Type 0 where
  pub pos : ℕ
  pub waiting_for_keyframe : Bool
  pub started : ℕ

unfoldable pub start_cursor : {A : Type 0} → Channel A → ℕ → ℕ → StreamCursor
start_cursor c now req =
    let cur : StreamCursor = record {
      pos = c.buffer.header_pos;
      waiting_for_keyframe = true;
      started = now;
    } in
    if not (has_data c.buffer)
    then cur
    else if req == 0 || pos_before req (oldest_pos c.buffer)
    then record cur { pos = oldest_pos c.buffer }
    else if pos_before (content_position c.buffer) req
    then record cur { pos = content_position c.buffer }
    else record cur { pos = req }

-- The position behind a packet.
abbrev pub end_of : Content → ℕ
end_of p = (p.pos + length p.payload) % 2 ^ 32

module _ (lib : PcpLibrary) (channel_id : GnuId) where
  open lib use {Atom, build_chan}

  -- An atom with a part of the stream.
  abbrev pub pkt_atom : ℕ → ℕ → List ℕ → ℕ → Atom
  pkt_atom kind pos bytes continuation = build_chan (record {
    id = channel_id;
    broadcast_id = 0;
    info = none;
    track = none;
    pkt = some (record { kind = kind; pos = pos; payload = bytes; continuation = continuation });
  })

-- `works` says which writes on the connection succeed, `channel_id` is the channel's.
module _ (lib : PcpLibrary) (works : ℕ → Bool) (channel_id : GnuId) where
  open lib use {Atom, new_int_atom, quit, error_quit, error_skip, type_data, type_head}

  -- The loop that splits a packet with the flags `flags`, from its position `pos` and the flags
  -- `continuation` of the next chunk on; it ends before `fuel` does when that is at least the
  -- number of bytes.
  unfoldable pub send_chunks : ℕ → Connection Atom → ℕ → ℕ → ℕ → List ℕ → Connection Atom × Bool
  send_chunks fuel c flags pos continuation [] = (c, true)
  send_chunks zero c flags pos continuation (b ∷ bytes) = (c, true)
  send_chunks (suc fuel) c flags pos continuation (b ∷ bytes) =
      let chunk = take max_content_body_len (b ∷ bytes) in
      on_error (write_atom works c (pkt_atom lib channel_id type_data pos chunk continuation))
        (λ c'. (c', false))
        (λ c'.
          send_chunks fuel c' flags ((pos + length chunk) % 2 ^ 32) (bit_or flags 1)
            (drop (length chunk) (b ∷ bytes)))

  -- The loop over the packets; `can_start` is what the channel says of one.
  unfoldable pub send_packets :
      (Content → Bool)
      → Connection Atom
      → StreamCursor
      → List Content
      → Connection Atom × StreamCursor × Bool
  send_packets can_start c cur [] = (c, cur, true)
  send_packets can_start c cur (p ∷ ps) =
      if cur.waiting_for_keyframe && not (can_start p)
      then send_packets can_start c (record cur { pos = end_of p }) ps
      else on_error (send_chunks (length p.payload) c p.cont_flags p.pos p.cont_flags p.payload)
          (λ c'. (c', record cur { waiting_for_keyframe = false }, false))
          (λ c'.
            send_packets can_start c' (record cur { waiting_for_keyframe = false; pos = end_of p })
              ps)

  abbrev pub send_quit : Connection Atom → ℕ → Connection Atom
  send_quit c code = (write_atom works c (new_int_atom quit code)).0

  -- `sendDataPackets`, with the time of the check.
  unfoldable pub send_data_packets :
      (Content → Bool)
      → Connection Atom
      → StreamCursor
      → ℕ
      → List Content
      → Connection Atom × StreamCursor × Bool
  unfolding send_packets
  send_data_packets can_start c cur now [] = (c, cur, true)
  send_data_packets can_start c cur now (p ∷ ps) =
      let cur' = if cur.started == 0 then record cur { started = now } else cur in
      if ltb output_queue_timeout (now - max p.timestamp cur'.started)
      then (send_quit c (error_quit + error_skip), cur', false)
      else send_packets can_start c cur' (p ∷ ps)

  -- `sendHeaderUpdate`
  unfoldable pub send_header_update :
      Channel Atom → Connection Atom → StreamCursor → Connection Atom × StreamCursor × Bool
  send_header_update ch c cur =
      let pos = ch.buffer.header_pos in
      let (c', ok) =
        write_atom works c (pkt_atom lib channel_id type_head pos (header_bytes ch.buffer) 0) in
      (c', record cur { pos = pos; waiting_for_keyframe = true }, ok)
