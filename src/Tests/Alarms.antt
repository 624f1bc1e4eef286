-- ===== src/Tests/Alarms.antt =====
-- Three timers, the second cleared, with numbers for callbacks and clock readings.
use iso.Base.{ℕ}
use iso.Timers.{TimerTable, new_table}
use iso.Timers.Table.{arms, clears, after}

abbrev one : TimerTable ℕ ℕ
one = after (arms 11 500 30) new_table

abbrev two : TimerTable ℕ ℕ
two = after (arms 12 510 20) one

abbrev three : TimerTable ℕ ℕ
three = after (arms 13 500 30) two

abbrev cleared : TimerTable ℕ ℕ
cleared = after (clears 2) three
