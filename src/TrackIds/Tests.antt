-- ===== src/TrackIds/Tests.antt =====
-- Two uploads, one of which is renamed in time.
use utilities.Base.{
  ℕ, ◌<◌, ◌≡◌, refl, true, false, some, [], ◌∷◌, lookup, insert, delete, string_keyed, length,
  arith,
}
use utilities.TrackIds.Watcher.{
  Entry, Watcher, Server, register, send, expire, prefix_map, detect, look, tick,
}
use utilities.TrackIds.Kept.{Kept, IsWatch}
use utilities.TrackIds.Answered.{tick-Kept}

abbrev server : Server ℕ
server = record {
  opener = λ user. some 1;
  names_in_folder = λ c. some ("b.pdf#T7" ∷ "#none" ∷ "c.pdf" ∷ []);
  base = λ name. name;
}

abbrev late : Entry
late = record { user = "u"; basename = "a.pdf"; uploaded = 0; deadline = 5 }

abbrev renamed : Entry
renamed = record { user = "u"; basename = "b.pdf"; uploaded = 3; deadline = 8 }

abbrev watcher : Watcher ℕ
watcher = record {
  timeout = 5;
  pending = ("u|a.pdf", late) ∷ ("u|b.pdf", renamed) ∷ [];
  results = [];
  clients = [];
}

test_register :
    (register "u" "b.pdf" 3 (record watcher { pending = ("u|a.pdf", late) ∷ [] })).pending
    ≡ watcher.pending
unfolding register insert
test_register = refl

test_tick :
    (tick server 6 7 watcher).results
    ≡ record { user = "u"; basename = "a.pdf"; track_id = ""; detected_at = 6; timed_out = true }
      ∷ record {
        user = "u";
        basename = "b.pdf";
        track_id = "T7";
        detected_at = 7;
        timed_out = false;
      }
      ∷ []
unfolding tick expire look prefix_map detect send lookup insert delete
test_tick = refl

watcher_IsWatch : IsWatch watcher.pending
unfolding lookup
watcher_IsWatch = ((refl, (refl, tt)), (refl, (refl, tt)))

has_room : length (tick server 6 7 watcher).results < 512
unfolding tick expire look prefix_map detect send lookup insert delete
has_room = omega arith

still_pending : lookup "u|b.pdf" watcher.pending ≡ some renamed
unfolding lookup
still_pending = refl

tick-Kept_example :
    Kept "u|b.pdf" renamed ((tick server 6 7 watcher).pending, (tick server 6 7 watcher).results)
tick-Kept_example =
    tick-Kept server 6 7 watcher "u|b.pdf" renamed watcher_IsWatch still_pending has_room
