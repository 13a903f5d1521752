-- ===== src/Hashtable/Tests.antt =====
-- The table with two sockets in one bucket.
use wsd.Prelude.{◌≡◌, refl, [], arith}
use wsd.Types.{Sk}
use wsd.Hashtable.{Table, added, find, update}
use wsd.Hashtable.Laws.{find-update_ne}
use wsd.Fixtures.{loaded, socket}

abbrev vacant : Table
vacant = λ _. []

abbrev first : Sk
first = socket 5 (loaded []) (loaded [])

abbrev second : Sk
second = socket 6 (loaded []) (loaded [])

abbrev both : Table
both = added (added vacant first) second

abbrev woken : Sk
woken = record second { retries = 1 }

find-update_ne_example : find (update both 6 woken) 5 ≡ find both 5
find-update_ne_example = find-update_ne both 6 5 woken refl (λ e. absurd (omega arith))
