-- ===== src/TdfTable.antt =====
-- `TdfEntry` and `TdfTable` of virtualagent/MemoryDatabase.{hpp,cpp}: the TDF that each host asks
-- for, and the one that is in force. A `shared_ptr` is an `Option`. `notifications` counts the calls
-- of `cond.notify_all`; the logger is left out.
pub mod Max
pub mod Update
pub mod Entries
pub mod Tests
use virtual_time_synchroniza.Prelude.{
  ℕ, suc, Bool, true, false, Bytes, [], ◌∷◌, ◌++◌, codes, Option, none, some, if◌then◌else◌,
  Outcome, done, crash, null_pointer, out_of_range, ◌>>=◌, length,
}
use virtual_time_synchroniza.Floats.{Floats}
use virtual_time_synchroniza.Configuration.{Configuration}
use virtual_time_synchroniza.OrderedMap.{OrderedMap}
use virtual_time_synchroniza.OrderedMap

module _ ⦃fl : Floats⦄ where
  open fl use {LongDouble, l}

  pub record TdfEntry : Type 0 where
    pub base_tdf : LongDouble

  abbrev pub TdfMap : Type 0
  TdfMap = OrderedMap (Option TdfEntry)

  pub record TdfTable : Type 0 where
    pub tdf_map : TdfMap
    pub is_enabled : Bool
    pub latest_tdf : LongDouble
    pub notifications : ℕ

  abbrev pub empty_table : TdfTable
  empty_table = record {
    tdf_map = [];
    is_enabled = false;
    latest_tdf = l.lit 10 1;
    notifications = 0;
  }

  unfoldable pub max_loop : LongDouble → TdfMap → Outcome LongDouble
  max_loop max_val [] = done max_val
  max_loop max_val ((host, none) ∷ rest) = crash null_pointer
  max_loop max_val ((host, some e) ∷ rest) =
      max_loop (if l.lt max_val e.base_tdf then e.base_tdf else max_val) rest

  -- The loop starts at the entry whose value it starts with.
  unfoldable pub max_tdf : TdfMap → Outcome LongDouble
  max_tdf [] = crash out_of_range
  max_tdf ((host, none) ∷ rest) = crash null_pointer
  max_tdf ((host, some e) ∷ rest) = max_loop e.base_tdf ((host, some e) ∷ rest)

  unfoldable pub set_latest_tdf : LongDouble → TdfTable → TdfTable
  set_latest_tdf tdf_val t = record t { latest_tdf = tdf_val }

  unfoldable pub notify_all : TdfTable → TdfTable
  notify_all t = record t { notifications = suc t.notifications }

  -- How far the maximum is from the TDF in force, relative to that.
  unfoldable pub relative_change : LongDouble → LongDouble → LongDouble
  relative_change max_val latest = l.div (l.abs (l.sub max_val latest)) latest

  -- The part of `set` that runs where the table is enabled.
  unfoldable pub adopt_max : Configuration → TdfTable → LongDouble → TdfTable
  unfolding set_latest_tdf notify_all relative_change
  adopt_max cfg t max_val =
      if l.le cfg.tdf_change_threshold (relative_change max_val t.latest_tdf)
      then notify_all (set_latest_tdf max_val t)
      else t

  unfoldable pub set : Configuration → TdfTable → Bytes → LongDouble → Outcome TdfTable
  set cfg t hostname tdf_val =
      let t' : TdfTable = record t {
        tdf_map = OrderedMap.insert hostname (some (record { base_tdf = tdf_val })) t.tdf_map;
      } in
      if t.is_enabled then (max_tdf t'.tdf_map >>= λ m. done (adopt_max cfg t' m)) else done t'

  -- `tdfMap[hostname]`: a host that is missing is put in, with a null pointer.
  unfoldable pub get : TdfTable → Bytes → TdfTable × Option TdfEntry
  get t hostname = elim (OrderedMap.find hostname t.tdf_map) [
    | some e ↦ (t, e)
    | none ↦ (record t { tdf_map = OrderedMap.insert hostname none t.tdf_map }, none)
  ]

  unfoldable pub get_size : TdfTable → ℕ
  get_size t = length t.tdf_map

  unfoldable pub erase : TdfTable → Bytes → TdfTable
  erase t hostname = record t { tdf_map = OrderedMap.erase hostname t.tdf_map }

  unfoldable pub clear : TdfTable → TdfTable
  clear t = record t { tdf_map = [] }

  unfoldable pub enable_table : TdfTable → TdfTable
  enable_table t = record t { is_enabled = true }

  unfoldable pub disable_table : TdfTable → TdfTable
  disable_table t = record t { is_enabled = false }

  unfoldable pub is_table_enabled : TdfTable → Bool
  is_table_enabled t = t.is_enabled

  unfoldable pub get_latest_tdf : TdfTable → LongDouble
  get_latest_tdf t = t.latest_tdf

  -- `MemoryDatabase::enforceTdf`, which works on the table alone.
  unfoldable pub enforce_tdf : TdfTable → LongDouble → TdfTable
  unfolding disable_table set_latest_tdf notify_all
  enforce_tdf t tdf_val = notify_all (set_latest_tdf tdf_val (disable_table t))

  -- `print`: a line for each host. What is printed before a crash is left out.
  unfoldable pub print_entries : TdfMap → Outcome Bytes
  print_entries [] = done []
  print_entries ((host, none) ∷ rest) = crash null_pointer
  print_entries ((host, some e) ∷ rest) =
      print_entries rest >>= λ s. done (host ++ (codes ": " ++ (fl.print e.base_tdf ++ (10 ∷ s))))

  unfoldable pub print : TdfTable → Outcome Bytes
  print t = print_entries t.tdf_map
