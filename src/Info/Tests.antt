-- ===== src/Info/Tests.antt =====
-- A description of an FLV stream without a type.
use peercast_mi.Base.{◌≡◌}
use peercast_mi.Pcp.{ChanInfo}
use peercast_mi.Info.{info_from_pcp, info_to_pcp, IsReadAs, info_from_pcp-info_to_pcp}

abbrev bare_info : ChanInfo
bare_info = record {
  name = "news";
  url = "";
  desc = "";
  comment = "";
  genre = "talk";
  kind = "FLV";
  stream_type = "";
  stream_ext = "";
  bitrate = 500;
}

info_from_pcp-info_to_pcp_example :
    IsReadAs bare_info (info_from_pcp bare_info)
    × (info_from_pcp (info_to_pcp (info_from_pcp bare_info)) ≡ info_from_pcp bare_info)
info_from_pcp-info_to_pcp_example = info_from_pcp-info_to_pcp bare_info
