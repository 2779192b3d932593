-- ===== src/Pprof/Profile.antt =====
-- `build_profile` of src/pprof.rs. A string is its bytes. The hash maps are walked in the order of
-- their association lists. The symbol names of the backtrace library, the clock and the sample
-- interval are arguments.
use Prim.Native.Char.{code}
use Prim.Native.String.{String}
use clmalloc.Base.{
  ℕ, zero, suc, ◌+◌, ◌/◌, ◌%◌, ◌&&◌, Option, none, some, List, [], ◌∷◌, ◌++◌, ltb, ◌==◌,
  if◌then◌else◌, length,
}
use clmalloc.Pprof.Wire.{
  encode_varint_field, encode_field, encode_bytes_field, encode_value_type, encode_label,
}
use clmalloc.Pprof.Tables.{same_frames, PprofState, SideTable}

abbrev pub Text : Type 0
Text = List ℕ

abbrev pub codes : String → Text
codes String.[] = []
codes (String.◌∷◌ c s) = code c ∷ codes s

pub record StringTable : Type 0 where
  pub table : List Text
  pub map : List (Text × ℕ)

unfoldable pub find_text : Text → List (Text × ℕ) → Option ℕ
find_text s [] = none
find_text s ((key, idx) ∷ rest) = if same_frames key s then some idx else find_text s rest

unfoldable pub intern_text : StringTable → Text → ℕ × StringTable
intern_text t s =
    let idx = length t.table in
    elim (find_text s t.map) [
      | some old ↦ (old, t)
      | none ↦ (idx, record { table = t.table ++ (s ∷ []); map = (s, idx) ∷ t.map })
    ]

-- `format!("{}", n)` for a u8, and `format!("0x{ip:x}")` for a usize of at most sixteen digits.
abbrev pub decimal : ℕ → Text
decimal n =
    let units = (48 + n % 10) ∷ [] in
    let tens = (48 + n / 10 % 10) ∷ units in
    if ltb n 10 then units else if ltb n 100 then tens else (48 + n / 100) ∷ tens

abbrev pub hex_digit : ℕ → ℕ
hex_digit d = if ltb d 10 then 48 + d else 87 + d

unfoldable pub hex_digits : ℕ → ℕ → Text → Text
hex_digits zero n acc = acc
hex_digits (suc fuel) n acc =
    let acc' = hex_digit (n % 16) ∷ acc in
    let more = hex_digits fuel (n / 16) acc' in if n / 16 == 0 then acc' else more

unfoldable pub resolve_symbol : (ℕ → Option Text) → ℕ → StringTable → ℕ × StringTable
resolve_symbol symbol ip strings = elim (symbol ip) [
  | none ↦ intern_text strings (48 ∷ 120 ∷ hex_digits 16 ip [])
  | some name ↦ intern_text strings name
]

unfoldable pub find_id : ℕ → List (ℕ × ℕ) → Option ℕ
find_id ip [] = none
find_id ip ((key, id) ∷ rest) = if key == ip then some id else find_id ip rest

-- What the first loop builds; a location and a function are pairs of numbers, in order.
pub record Symbols : Type 0 where
  pub locations : List (ℕ × ℕ)
  pub loc_map : List (ℕ × ℕ)
  pub functions : List (ℕ × ℕ)
  pub func_map : List (ℕ × ℕ)
  pub strings : StringTable

unfoldable pub add_function : (ℕ → Option Text) → ℕ → Symbols → ℕ × Symbols
add_function symbol ip s =
    let fid = length s.func_map + 1 in
    let (name, strings) = resolve_symbol symbol ip s.strings in
    elim (find_id ip s.func_map) [
      | some old ↦ (old, s)
      | none ↦ (
        fid,
        record s {
          strings = strings;
          func_map = (ip, fid) ∷ s.func_map;
          functions = s.functions ++ ((fid, name) ∷ []);
        },
      )
    ]

unfoldable pub add_location : (ℕ → Option Text) → ℕ → Symbols → Symbols
add_location symbol ip s =
    let (func_id, s') = add_function symbol ip s in
    let loc_id = length s.loc_map + 1 in
    elim (find_id ip s.loc_map) [
      | some old ↦ s
      | none ↦ record s' {
        loc_map = (ip, loc_id) ∷ s'.loc_map;
        locations = s'.locations ++ ((loc_id, func_id) ∷ []);
      }
    ]

abbrev pub add_frames : (ℕ → Option Text) → List ℕ → Symbols → Symbols
add_frames symbol [] s = s
add_frames symbol (ip ∷ ips) s = add_frames symbol ips (add_location symbol ip s)

abbrev pub add_stacks : (ℕ → Option Text) → List (List ℕ × ℕ) → Symbols → Symbols
add_stacks symbol [] s = s
add_stacks symbol ((frames, id) ∷ rest) s = add_stacks symbol rest (add_frames symbol frames s)

-- `loc_map[&ip]`; every frame is in the map after the first loop.
abbrev pub or_zero : Option ℕ → ℕ
or_zero none = 0
or_zero (some id) = id

abbrev pub encode_locations : List ℕ → List (ℕ × ℕ) → List ℕ
encode_locations [] locs = []
encode_locations (ip ∷ ips) locs =
    encode_varint_field 1 (or_zero (find_id ip locs)) ++ encode_locations ips locs

unfoldable pub find_class : ℕ → SideTable → Option ℕ
find_class stack_id [] = none
find_class stack_id ((ptr, r) ∷ rest) =
    if r.stack_id == stack_id then some r.class_idx else find_class stack_id rest

-- The body of one sample message, and the string table with the class label.
unfoldable pub encode_sample :
    PprofState → ℕ → List (ℕ × ℕ) → List ℕ → ℕ → StringTable → List ℕ × StringTable
encode_sample state st_size_class locs frames stack_id strings =
    let c = state.stacks.counters stack_id in
    let values =
      encode_locations frames locs
      ++ (encode_varint_field 2 c.alloc_count
          ++ (encode_varint_field 2 c.alloc_bytes
              ++ (encode_varint_field 2 c.live_count ++ encode_varint_field 2 c.live_bytes))) in
    elim (find_class stack_id state.side) [
      | none ↦ (values, strings)
      | some class ↦
          let (class_str, strings') = intern_text strings (decimal class) in
          (values ++ encode_field 3 (encode_label st_size_class class_str), strings')
    ]

unfoldable pub encode_samples :
    PprofState → ℕ → List (ℕ × ℕ) → List (List ℕ × ℕ) → StringTable → List ℕ × StringTable
encode_samples state st_size_class locs [] strings = ([], strings)
encode_samples state st_size_class locs ((frames, stack_id) ∷ rest) strings =
    let c = state.stacks.counters stack_id in
    let (sample, strings') = encode_sample state st_size_class locs frames stack_id strings in
    let unused = c.alloc_count == 0 && c.live_count == 0 in
    let (more, strings'') =
      encode_samples state st_size_class locs rest (if unused then strings else strings') in
    (if unused then more else encode_field 2 sample ++ more, strings'')

abbrev pub encode_location_list : List (ℕ × ℕ) → List ℕ
encode_location_list [] = []
encode_location_list ((loc_id, func_id) ∷ rest) =
    encode_field 4 (encode_varint_field 1 loc_id ++ encode_field 4 (encode_varint_field 1 func_id))
    ++ encode_location_list rest

abbrev pub encode_function_list : List (ℕ × ℕ) → List ℕ
encode_function_list [] = []
encode_function_list ((func_id, name_idx) ∷ rest) =
    encode_field 5 (
      encode_varint_field 1 func_id
      ++ (encode_varint_field 2 name_idx ++ encode_varint_field 3 name_idx))
    ++ encode_function_list rest

abbrev pub encode_strings : List Text → List ℕ
encode_strings [] = []
encode_strings (s ∷ rest) = encode_bytes_field 6 s ++ encode_strings rest

-- The indices that the first strings get: 1 to 8, behind the empty string.
abbrev pub initial_strings : StringTable
initial_strings =
    go
      (codes ""
        ∷ codes "alloc_objects"
        ∷ codes "alloc_space"
        ∷ codes "inuse_objects"
        ∷ codes "inuse_space"
        ∷ codes "count"
        ∷ codes "bytes"
        ∷ codes "size_class"
        ∷ codes "space"
        ∷ [])
      (record { table = []; map = [] })
  where
    go : List Text → StringTable → StringTable
    go [] t = t
    go (s ∷ rest) t = go rest (intern_text t s).1

unfoldable pub build_profile : (ℕ → Option Text) → (nanos interval : ℕ) → PprofState → List ℕ
build_profile symbol nanos interval state =
    let symbols = add_stacks symbol state.stacks.map (record {
      locations = [];
      loc_map = [];
      functions = [];
      func_map = [];
      strings = initial_strings;
    }) in
    let types =
      encode_field 1 (encode_value_type 1 5)
      ++ (encode_field 1 (encode_value_type 2 6)
          ++ (encode_field 1 (encode_value_type 3 5) ++ encode_field 1 (encode_value_type 4 6))) in
    let (samples, strings) =
      encode_samples state 7 symbols.loc_map state.stacks.map symbols.strings in
    types
    ++ (samples
        ++ (encode_location_list symbols.locations
            ++ (encode_function_list symbols.functions
                ++ (encode_strings strings.table
                    ++ (encode_varint_field 9 nanos
                        ++ (encode_field 11 (encode_value_type 8 6)
                            ++ encode_varint_field 12 interval))))))
