-- ===== src/Storage/CanonicalJson.antt =====
-- backend/app/shared/canonical_json.py: the canonical text of a JSON value, as
-- `json.dumps(ensure_ascii=False, sort_keys=True, separators=(",", ":"))` writes it.
use Prim.Native.Char.{Char, code}
use Prim.Native.Nat.{◌/◌, ◌%◌}
use Prim.Native.String.{compare}
use text.Mathlib.Text.{is_le}
use personal_finance_public.Base.{
  String, ℕ, zero, suc, ◌≡◌, refl, Bool, true, false, ltb, nat_eq, if◌then◌else◌,
}
use personal_finance_public.Base.Int.{ℤ, pos, negsuc}
use personal_finance_public.Base.Text.{append}
use personal_finance_public.Storage.Json.{
  JsonValue, Items, Fields, null, bool, int, str, list, dict, nil, cons, end, field,
}

unfoldable pub digit : ℕ → String
digit n =
    if nat_eq n 0
    then "0"
    else if nat_eq n 1
    then "1"
    else if nat_eq n 2
    then "2"
    else if nat_eq n 3
    then "3"
    else if nat_eq n 4
    then "4"
    else if nat_eq n 5
    then "5"
    else if nat_eq n 6
    then "6"
    else if nat_eq n 7
    then "7"
    else if nat_eq n 8
    then "8"
    else if nat_eq n 9
    then "9"
    else if nat_eq n 10
    then "a"
    else if nat_eq n 11
    then "b"
    else if nat_eq n 12
    then "c"
    else if nat_eq n 13
    then "d"
    else if nat_eq n 14
    then "e"
    else "f"

-- The digits of a number before a text; a number has fewer digits than its successor.
decimal_onto : ℕ → ℕ → String → String
decimal_onto zero n acc = acc
decimal_onto (suc fuel) n acc =
    let shown = append (digit (n % 10)) acc in
    let more = decimal_onto fuel (n / 10) shown in if ltb n 10 then shown else more

-- `str(n)`
unfoldable pub decimal : ℕ → String
unfolding decimal_onto digit append
decimal n = decimal_onto (suc n) n ""

escape : Char → String → String
unfolding digit append
escape c rest =
    let n = code c in
    if nat_eq n 0x22
    then append "\\\"" rest
    else if nat_eq n 0x5c
    then append "\\\\" rest
    else if nat_eq n 0x0a
    then append "\\n" rest
    else if nat_eq n 0x0d
    then append "\\r" rest
    else if nat_eq n 0x09
    then append "\\t" rest
    else if nat_eq n 0x0c
    then append "\\f" rest
    else if nat_eq n 0x08
    then append "\\b" rest
    else if ltb n 0x20
    then append "\\u00" (append (digit (n / 16)) (append (digit (n % 16)) rest))
    else String.◌∷◌ c rest

escaped : String → String
unfolding escape
escaped String.[] = ""
escaped (String.◌∷◌ c s) = escape c (escaped s)

unfoldable pub quoted : String → String
unfolding escaped
quoted s = append "\"" (append (escaped s) "\"")

-- Keys in the order of their code points, which is that of their UTF-8 bytes.
unfoldable pub insert_field : String → JsonValue → Fields → Fields
insert_field key value end = field key value end
insert_field key value (field k v rest) =
    if is_le (compare key k)
    then field key value (field k v rest)
    else field k v (insert_field key value rest)

unfoldable mutual
  pub sort_keys : JsonValue → JsonValue
  sort_keys null = null
  sort_keys (bool b) = bool b
  sort_keys (int i) = int i
  sort_keys (str s) = str s
  sort_keys (list xs) = list (sort_items xs)
  sort_keys (dict fs) = dict (sort_fields fs)

  pub sort_items : Items → Items
  sort_items nil = nil
  sort_items (cons x xs) = cons (sort_keys x) (sort_items xs)

  pub sort_fields : Fields → Fields
  sort_fields end = end
  sort_fields (field k v rest) = insert_field k (sort_keys v) (sort_fields rest)

unfoldable pub dump_bool : Bool → String
dump_bool true = "true"
dump_bool false = "false"

unfoldable pub dump_int : ℤ → String
unfolding decimal append
dump_int (pos n) = decimal n
dump_int (negsuc n) = append "-" (decimal (suc n))

-- Every item but the first follows a comma.
unfoldable mutual
  pub dumps : JsonValue → String
  dumps null = "null"
  dumps (bool b) = dump_bool b
  dumps (int i) = dump_int i
  dumps (str s) = quoted s
  dumps (list xs) = append "[" (dump_items "" xs)
  dumps (dict fs) = append "{" (dump_fields "" fs)

  pub dump_items : String → Items → String
  dump_items comma nil = "]"
  dump_items comma (cons x xs) = append comma (append (dumps x) (dump_items "," xs))

  pub dump_fields : String → Fields → String
  dump_fields comma end = "}"
  dump_fields comma (field k v rest) =
      append comma (append (quoted k) (append ":" (append (dumps v) (dump_fields "," rest))))

-- `canonical_json_bytes`; the text stands for its UTF-8 bytes.
unfoldable pub canonical_json : JsonValue → String
canonical_json payload = dumps (sort_keys payload)

dumps_example :
    canonical_json (
      dict (field "b" (int (negsuc 11)) (field "a" (list (cons (str "x\"y") (cons null nil))) end)))
    ≡ "{\"a\":[\"x\\\"y\",null],\"b\":-12}"
unfolding canonical_json dumps sort_keys insert_field quoted dump_int dump_bool append
dumps_example = refl
