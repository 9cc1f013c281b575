-- ===== src/Tests/Worlds.antt =====
-- Runs of the whole server.
use vexlo.Common.{
  true, false, refl, Bytes, codes, Bool, true, false, List, [], ◌∷◌, ◌++◌, Option, none, some,
}
use mathlib.Core.List.{Memᴰ}
use vexlo.Model.{CapturedRequest}
use vexlo.Storage.Writer.{from_queue, open_writer}
use vexlo.Tunnels.{TunnelManager}
use vexlo.Public.{read}
use vexlo.World.{World, Platform, Move, operates, serves, writes, stops, run}
use vexlo.World.Attributed.{IsAccounted, run-IsAccounted}
use vexlo.Tests.Replays.{
  digest, engine, no_json, same_spelling, no_gunzip, no_text, asked, reply, draw, busy, stored,
  captured,
}

abbrev platform : Platform
platform = record {
  sha256_hex = digest;
  engine = engine;
  json = no_json;
  canonical = same_spelling;
  gunzip = no_gunzip;
  payload_text = no_text;
  host_of = same_spelling;
}

abbrev at_work : World
at_work = record { manager = busy; writer = open_writer stored }

-- A public request is answered, and the writer writes it.
abbrev moves : List Move
moves =
    operates false (serves draw 0 asked (read []) (some reply))
    ∷ writes (from_queue false)
    ∷ stops
    ∷ []

abbrev or_at_work : Option World → World
or_at_work none = at_work
or_at_work (some w) = w

abbrev after_moves : World
after_moves = or_at_work (run platform moves at_work)

abbrev new_row : CapturedRequest
new_row = record captured {
  id = codes "r2";
  body = [];
  response_status = 502;
  response_body = codes "ok";
  created_at = 8;
}

run-IsAccounted_example : IsAccounted platform moves at_work new_row
unfolding run vexlo.Common.get vexlo.Common.str_eq vexlo.Common.contains_str vexlo.Common.to_lower
    vexlo.Common.trim_space vexlo.Common.has_prefix
run-IsAccounted_example =
    run-IsAccounted platform moves at_work after_moves new_row refl (Memᴰ.tail (Memᴰ.head refl))
