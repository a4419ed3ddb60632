-- ===== src/Options.antt =====
-- EnvOption.kt, DbiOption.kt, PutOption.kt, TxnOption.kt and CursorOptions.kt: options as bits.
pub mod Flags
pub mod Members
use Prim.Native.Nat.{bit_or, bit_and}
use kotlin_lmdb.Common.{ℕ, zero, suc, ◌^◌, List, [], ◌∷◌, Bool, true, false, not, ◌==◌}

pub data EnvOption : Type 0 where
  fixed_map no_sub_dir no_sync read_only no_meta_sync write_map map_async no_tls : EnvOption
  no_lock no_read_ahead no_mem_init : EnvOption

pub data DbiOption : Type 0 where
  reverse_key dup_sort integer_key dup_fixed integer_dup reverse_dup create : DbiOption

pub data PutOption : Type 0 where
  no_dup_data no_overwrite reserve append append_dup : PutOption

pub data TxnOption : Type 0 where
  no_sync read_only no_meta_sync : TxnOption

pub data CursorOption : Type 0 where
  first first_dup get_both get_both_range get_current get_multiple last last_dup : CursorOption
  next next_dup next_multiple next_nodup prev prev_dup prev_nodup : CursorOption
  set set_key set_range : CursorOption

pub data CursorPutOption : Type 0 where
  put_none nodupdata current nooverwrite reserve append appenddup multiple : CursorPutOption

-- The field `option` of each.
abbrev pub env_option : EnvOption → ℕ
env_option EnvOption.fixed_map = 0x01
env_option EnvOption.no_sub_dir = 0x4000
env_option EnvOption.no_sync = 0x10000
env_option EnvOption.read_only = 0x20000
env_option EnvOption.no_meta_sync = 0x40000
env_option EnvOption.write_map = 0x80000
env_option EnvOption.map_async = 0x100000
env_option EnvOption.no_tls = 0x200000
env_option EnvOption.no_lock = 0x400000
env_option EnvOption.no_read_ahead = 0x800000
env_option EnvOption.no_mem_init = 0x1000000

abbrev pub dbi_option : DbiOption → ℕ
dbi_option DbiOption.reverse_key = 0x02
dbi_option DbiOption.dup_sort = 0x04
dbi_option DbiOption.integer_key = 0x08
dbi_option DbiOption.dup_fixed = 0x10
dbi_option DbiOption.integer_dup = 0x20
dbi_option DbiOption.reverse_dup = 0x40
dbi_option DbiOption.create = 0x40000

abbrev pub put_option : PutOption → ℕ
put_option PutOption.no_dup_data = 0x20
put_option PutOption.no_overwrite = 0x10
put_option PutOption.reserve = 0x10000
put_option PutOption.append = 0x20000
put_option PutOption.append_dup = 0x40000

abbrev pub txn_option : TxnOption → ℕ
txn_option TxnOption.no_sync = 0x10000
txn_option TxnOption.read_only = 0x20000
txn_option TxnOption.no_meta_sync = 0x40000

abbrev pub cursor_option : CursorOption → ℕ
cursor_option CursorOption.first = 0
cursor_option CursorOption.first_dup = 1
cursor_option CursorOption.get_both = 2
cursor_option CursorOption.get_both_range = 3
cursor_option CursorOption.get_current = 4
cursor_option CursorOption.get_multiple = 5
cursor_option CursorOption.last = 6
cursor_option CursorOption.last_dup = 7
cursor_option CursorOption.next = 8
cursor_option CursorOption.next_dup = 9
cursor_option CursorOption.next_multiple = 10
cursor_option CursorOption.next_nodup = 11
cursor_option CursorOption.prev = 12
cursor_option CursorOption.prev_dup = 13
cursor_option CursorOption.prev_nodup = 14
cursor_option CursorOption.set = 15
cursor_option CursorOption.set_key = 16
cursor_option CursorOption.set_range = 17

abbrev pub cursor_put_option : CursorPutOption → ℕ
cursor_put_option CursorPutOption.put_none = 0
cursor_put_option CursorPutOption.nodupdata = 0x20
cursor_put_option CursorPutOption.current = 0x40
cursor_put_option CursorPutOption.nooverwrite = 0x10
cursor_put_option CursorPutOption.reserve = 0x10000
cursor_put_option CursorPutOption.append = 0x20000
cursor_put_option CursorPutOption.appenddup = 0x40000
cursor_put_option CursorPutOption.multiple = 0x80000

-- `fold(0u) { acc, value -> acc or value.option }`, from `acc` on.
module _ {O : Type 0} (option : O → ℕ) where
  unfoldable pub fold_flags : ℕ → List O → ℕ
  fold_flags acc [] = acc
  fold_flags acc (o ∷ os) = fold_flags (bit_or acc (option o)) os

  unfoldable pub to_flags : List O → ℕ
  unfolding fold_flags
  to_flags os = fold_flags 0 os

-- EnvOption.values() and DbiOption.values()
abbrev pub env_values : List EnvOption
env_values =
    EnvOption.fixed_map ∷ EnvOption.no_sub_dir ∷ EnvOption.no_sync ∷ EnvOption.read_only
    ∷ EnvOption.no_meta_sync ∷ EnvOption.write_map ∷ EnvOption.map_async ∷ EnvOption.no_tls
    ∷ EnvOption.no_lock ∷ EnvOption.no_read_ahead ∷ EnvOption.no_mem_init ∷ []

abbrev pub dbi_values : List DbiOption
dbi_values =
    DbiOption.reverse_key ∷ DbiOption.dup_sort ∷ DbiOption.integer_key ∷ DbiOption.dup_fixed
    ∷ DbiOption.integer_dup ∷ DbiOption.reverse_dup ∷ DbiOption.create ∷ []

-- `flagsValue and it.option == it.option`, the test of Env.flags.
abbrev pub env_test : ℕ → EnvOption → Bool
env_test flags o = bit_and flags (env_option o) == env_option o

-- `(flagsInt and it.option) != 0u`, the test of Dbi.flags.
abbrev pub dbi_test : ℕ → DbiOption → Bool
dbi_test flags o = not (bit_and flags (dbi_option o) == 0)
