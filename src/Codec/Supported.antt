-- ===== src/Codec/Supported.antt =====
-- The values that the codec carries in both directions: every vector is a byte list (a vector of
-- wider elements is read back as bytes), numbers fit their width, strings are UTF-8 and sizes fit
-- 32 bits. Custom values are never written.
use veshell.Base.{ℕ, suc, ◌<◌, ◌≡◌, ◌^◌, max, true, All, length}
use veshell.Codec.Bytes.{is_utf8}
use veshell.Codec.EncodableValue.{
  EncodableValue, null, bool, int32, int64, double, string, byte_list, int32_list, int64_list,
  double_list, list, map, custom, float_list, Values, nil, cons, Entries, end, entry, count,
  count_entries,
}

abbrev pub IsSize : ℕ → Type 0
IsSize n = n < 256 ^ 4

unfoldable mutual
  pub IsSupported : EncodableValue → Type 0
  IsSupported null = Unit
  IsSupported (bool b) = Unit
  IsSupported (int32 n) = n < 256 ^ 4
  IsSupported (int64 n) = n < 256 ^ 8
  IsSupported (double n) = n < 256 ^ 8
  IsSupported (string bs) = (is_utf8 bs ≡ true) × IsSize (length bs)
  IsSupported (byte_list bs) = All (λ b. b < 256) bs × IsSize (length bs)
  IsSupported (int32_list ns) = ⊥
  IsSupported (int64_list ns) = ⊥
  IsSupported (double_list ns) = ⊥
  IsSupported (list vs) = AreSupported vs × IsSize (count vs)
  IsSupported (map es) = EntriesSupported es × IsSize (count_entries es)
  IsSupported custom = ⊥
  IsSupported (float_list ns) = ⊥

  pub AreSupported : Values → Type 0
  AreSupported nil = Unit
  AreSupported (cons v vs) = IsSupported v × AreSupported vs

  pub EntriesSupported : Entries → Type 0
  EntriesSupported end = Unit
  EntriesSupported (entry k v es) = IsSupported k × IsSupported v × EntriesSupported es

-- How deep lists and maps are nested.
unfoldable mutual
  pub depth : EncodableValue → ℕ
  depth null = 1
  depth (bool b) = 1
  depth (int32 n) = 1
  depth (int64 n) = 1
  depth (double n) = 1
  depth (string bs) = 1
  depth (byte_list bs) = 1
  depth (int32_list ns) = 1
  depth (int64_list ns) = 1
  depth (double_list ns) = 1
  depth (list vs) = suc (depth_values vs)
  depth (map es) = suc (depth_entries es)
  depth custom = 1
  depth (float_list ns) = 1

  pub depth_values : Values → ℕ
  depth_values nil = 0
  depth_values (cons v vs) = max (depth v) (depth_values vs)

  pub depth_entries : Entries → ℕ
  depth_entries end = 0
  depth_entries (entry k v es) = max (max (depth k) (depth v)) (depth_entries es)
