-- ===== src/Info.antt =====
-- internal/channel/info.go, and the setters of channel.go for what it describes: the metadata of a
-- channel, and its form in the library of the protocol.
mod Tests
use peercast_mi.Base.{
  ℕ, ◌≡◌, ◌≢◌, refl, String, string_eq, Bool, true, false, ◌&&◌, ◌||◌, ◌==◌, if◌then◌else◌, List,
  map, arith, beq-cases, ap, inl, inr, ◌⊎◌,
}
use peercast_mi.Pcp.{GnuId, ChanInfo, ChanTrack}
use peercast_mi.Channel.{OutputStream, Event, notify_info, notify_track}

pub record ChannelInfo : Type 0 where
  pub name : String
  pub url : String
  pub desc : String
  pub comment : String
  pub genre : String
  pub kind : String
  pub mime_type : String
  pub ext : String
  pub bitrate : ℕ

pub record TrackInfo : Type 0 where
  pub title : String
  pub creator : String
  pub url : String
  pub album : String

unfoldable pub info_to_pcp : ChannelInfo → ChanInfo
info_to_pcp ci = record {
  name = ci.name;
  url = ci.url;
  desc = ci.desc;
  comment = ci.comment;
  genre = ci.genre;
  kind = ci.kind;
  stream_type = ci.mime_type;
  stream_ext = ci.ext;
  bitrate = ci.bitrate;
}

-- The type and the extension that a stream of FLV has when they are not given.
unfoldable pub inferred : ChannelInfo → ChannelInfo
inferred info =
    if info.mime_type == "" || info.ext == ""
    then (if info.kind == "FLV"
        then record info {
          mime_type = if info.mime_type == "" then "video/x-flv" else info.mime_type;
          ext = if info.ext == "" then ".flv" else info.ext;
        }
        else info)
    else info

-- The fields that are on the wire.
abbrev pub as_given : ChanInfo → ChannelInfo
as_given ci = record {
  name = ci.name;
  url = ci.url;
  desc = ci.desc;
  comment = ci.comment;
  genre = ci.genre;
  kind = ci.kind;
  mime_type = ci.stream_type;
  ext = ci.stream_ext;
  bitrate = ci.bitrate;
}

unfoldable pub info_from_pcp : ChanInfo → ChannelInfo
info_from_pcp ci = inferred (as_given ci)

unfoldable pub track_to_pcp : TrackInfo → ChanTrack
track_to_pcp ti = record { title = ti.title; creator = ti.creator; url = ti.url; album = ti.album }

unfoldable pub track_from_pcp : ChanTrack → TrackInfo
track_from_pcp ct = record {
  title = ct.title;
  creator = ct.creator;
  url = ct.url;
  album = ct.album;
}

-- The fields of `Channel` that its upstream node or its broadcaster describes it by.
pub record Metadata : Type 0 where
  pub broadcast_id : GnuId
  pub info : ChannelInfo
  pub track : TrackInfo

module _ {A : Type 0} where
  -- A setter also tells the channel's output streams.
  unfoldable pub set_info : Metadata → List OutputStream → ChannelInfo → Metadata × List (Event A)
  set_info m outputs info = (record m { info = info }, map (λ o. notify_info o.ref) outputs)

  unfoldable pub set_track : Metadata → List OutputStream → TrackInfo → Metadata × List (Event A)
  set_track m outputs track = (record m { track = track }, map (λ o. notify_track o.ref) outputs)

inferred_again : (info : ChannelInfo) → inferred (inferred info) ≡ inferred info
unfolding inferred
inferred_again info =
    ground (arith, beq-cases info.mime_type "", beq-cases info.ext "", beq-cases info.kind "FLV")

passed_on : (ci : ChanInfo) → info_from_pcp (info_to_pcp (info_from_pcp ci)) ≡ info_from_pcp ci
unfolding info_from_pcp info_to_pcp
passed_on ci = inferred_again (as_given ci)

-- A type or extension as it is read: what is given, or the default if nothing is and the stream is
-- of the kind that has one.
abbrev pub IsFilled : String → String → String → String → Type 0
IsFilled kind default given read =
    ((given ≢ "") × (read ≡ given))
    ⊎ ((given ≡ "") × (kind ≡ "FLV") × (read ≡ default))
    ⊎ ((given ≡ "") × (kind ≢ "FLV") × (read ≡ ""))

-- What a description must be read as.
pub record IsReadAs (ci : ChanInfo) (info : ChannelInfo) : Type 0 where
  pub name : info.name ≡ ci.name
  pub url : info.url ≡ ci.url
  pub desc : info.desc ≡ ci.desc
  pub comment : info.comment ≡ ci.comment
  pub genre : info.genre ≡ ci.genre
  pub kind : info.kind ≡ ci.kind
  pub bitrate : info.bitrate ≡ ci.bitrate
  pub mime_type : IsFilled ci.kind "video/x-flv" ci.stream_type info.mime_type
  pub ext : IsFilled ci.kind ".flv" ci.stream_ext info.ext

info_from_pcp-IsReadAs : (ci : ChanInfo) → IsReadAs ci (info_from_pcp ci)
unfolding info_from_pcp inferred
info_from_pcp-IsReadAs ci = record {
  name = ground arith;
  url = ground arith;
  desc = ground arith;
  comment = ground arith;
  genre = ground arith;
  kind = ground arith;
  bitrate = ground arith;
  mime_type =
      ground
        (arith, beq-cases ci.stream_type "", beq-cases ci.stream_ext "", beq-cases ci.kind "FLV");
  ext =
      ground
        (arith, beq-cases ci.stream_type "", beq-cases ci.stream_ext "", beq-cases ci.kind "FLV");
}

-- Of a description on the wire every field is read as given, the type and the extension of an FLV
-- stream as "video/x-flv" and ".flv" if they are empty; and a node that passes the description on, as
-- a relay does, has the next node read what it read itself.
pub info_from_pcp-info_to_pcp :
    (ci : ChanInfo)
    → IsReadAs ci (info_from_pcp ci)
      × (info_from_pcp (info_to_pcp (info_from_pcp ci)) ≡ info_from_pcp ci)
info_from_pcp-info_to_pcp ci = (info_from_pcp-IsReadAs ci, passed_on ci)
