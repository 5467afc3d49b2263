-- ===== src/Bus/Samples.antt =====
-- The theorem on messages at a message that is built from the old fields.
use turning_good_agent.Prelude.{◌≡◌, refl, none, some, []}
use turning_good_agent.Prelude.Result.{ok}
use turning_good_agent.Bus.{InboundMessage, make_inbound, normal_route}
use turning_good_agent.Bus.Normal.{IsNormal, make_inbound-IsNormal}

abbrev built : InboundMessage
built = record {
  id = "m";
  session_id = "s";
  route = record { principal_id = "u"; channel = "cli"; conversation_id = "s"; session_id = "s" };
  content = "hi";
  attachments = [];
  metadata = [];
  created_at = "now";
}

builds : make_inbound "m" (some "s") (some "u") (some "cli") "hi" [] [] none none "now" ≡ ok built
unfolding make_inbound normal_route
builds = refl

make_inbound-IsNormal_example : IsNormal (some "s") (some "u") (some "cli") built
make_inbound-IsNormal_example =
    make_inbound-IsNormal "m" (some "s") (some "u") (some "cli") "hi" [] [] none none "now" built
      builds
