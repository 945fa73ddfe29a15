-- ===== src/Tests/Instances.antt =====
-- Concrete values of the interfaces of third-party code.
use petracache.Base.{
  ◌∷◌, false, codes, Bool-cases, Bytes, Option, [], ap, bytes_eq, bytes_eq_refl, bytes_eq→eq, drop,
  if◌then◌else◌, inl, inr, none, refl, some, ◌++◌, ◌≡◌, ◌≢◌,
}
use mathlib.Core.List.{map}
use petracache.Result.{ok}
use petracache.Crates.Memchr.{Memchr, first_place}
use petracache.Crates.RocksDb.{RocksDb, IsMap, IsReliable}
use petracache.Crates.BytesMut.{BytesMut, IsBuffer}
use petracache.Crates.Itoa.{Itoa}
use petracache.Rust.Integer.{to_string}
use petracache.Protocol.Command.{Command, set}

instance abbrev pub search_memchr : Memchr
search_memchr = first_place

instance abbrev pub list_buffer : BytesMut
list_buffer = record {
  Buf = Bytes;
  contents = λ s. s;
  with_capacity = λ n. [];
  extend_from_slice = λ s t. s ++ t;
  advance = λ s n. drop n s;
  clear = λ s. [];
  default = [];
}

pub list_buffer-IsBuffer : IsBuffer list_buffer
list_buffer-IsBuffer = record {
  contents-with_capacity = λ n. refl;
  contents-extend = λ s t. refl;
  contents-advance = λ s n le. refl;
  contents-clear = λ s. refl;
  contents-default = refl;
}

instance abbrev pub string_itoa : Itoa
string_itoa = record { format = to_string; format_lem = λ n. refl }

abbrev update : (Bytes → Option Bytes) → Bytes → Option Bytes → Bytes → Option Bytes
update d k v j = if bytes_eq k j then v else d j

-- A database that never fails.
abbrev pub memory : RocksDb
memory = record {
  Db = Bytes → Option Bytes;
  Error = Bytes;
  show_error = λ e. e;
  get = λ d k. ok (d k);
  multi_get = λ d ks. map (λ k. ok (d k)) ks;
  put_opt = λ d k v. (ok tt, update d k (some v));
  delete_opt = λ d k. (ok tt, update d k none);
  compact_range = λ d. codes "k" ∷ codes "j" ∷ [];
  drop_entry = λ d k. update d k none;
}

update_self : (d : Bytes → Option Bytes) (k : Bytes) (v : Option Bytes) → update d k v k ≡ v
update_self d k v = rw (bytes_eq_refl k)

update_ne :
    (d : Bytes → Option Bytes) (k j : Bytes) (v : Option Bytes) → k ≢ j → update d k v j ≡ d j
update_ne d k j v ne = elim (Bool-cases (bytes_eq k j)) [
  | inl same ↦ absurd (ne (bytes_eq→eq k j same))
  | inr differs ↦ rw differs
]

pub memory-IsMap : IsMap memory
memory-IsMap = record {
  get-put_self = λ d k v done. ap ok (update_self d k (some v));
  get-put_ne = λ d k j v done ne. ap ok (update_ne d k j (some v) ne);
  get-delete_self = λ d k done. ap ok (update_self d k none);
  get-delete_ne = λ d k j done ne. ap ok (update_ne d k j none ne);
  get-drop_self = λ d k. ap ok (update_self d k none);
  get-drop_ne = λ d k j ne. ap ok (update_ne d k j none ne);
  multi_get_lem = λ d ks. refl;
}

pub memory-IsReliable : IsReliable memory
memory-IsReliable = record { put_succeeds = λ d k v. refl; delete_succeeds = λ d k. refl }

abbrev pub no_entries : Bytes → Option Bytes
no_entries k = none

-- A value that lives for a minute.
abbrev pub minute_command : Command
minute_command = set (codes "k") 7 60 (codes "hi") false
