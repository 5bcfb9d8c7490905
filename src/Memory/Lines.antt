-- ===== src/Memory/Lines.antt =====
-- Reading the memory file: `_parse_memory_line` and the marker of backend/domain/memory.py.
use soul_claw.Base.{
  String, List, [], ◌∷◌, Option, none, some, Fields, string, end, field_get, field_put, is_empty,
  is_some, if◌then◌else◌, is_space, lstrip_by, strip, split, cut, drop_prefix,
}

-- The metadata and the content of a line
pub record MemoryLine : Type 0 where
  pub metadata : Fields
  pub content : String

-- `\s+`, which what follows it does not take up again
abbrev pub spaces : String → Option String
spaces String.[] = none
spaces (String.◌∷◌ c s) = if is_space c then some (lstrip_by is_space s) else none

-- one part of the metadata: a pair with `=`, or the kind where none was read before
unfoldable pub read_pair : String → Option (String × String) → Fields → Fields
unfolding field_get field_put strip
read_pair part (some (key, value)) metadata = field_put (strip key) (string (strip value)) metadata
read_pair part none metadata =
    if is_some (field_get "kind" metadata)
    then metadata
    else field_put "kind" (string part) metadata

unfoldable pub read_part : String → Fields → Fields
unfolding read_pair cut strip
read_part raw metadata =
    let part = strip raw in
    if is_empty part then metadata else read_pair part (cut "=" part) metadata

unfoldable pub read_parts : List String → Fields → Fields
unfolding read_part
read_parts [] metadata = metadata
read_parts (part ∷ parts) metadata = read_parts parts (read_part part metadata)

abbrev pub line_of : String → Option String → Option MemoryLine
line_of meta none = none
line_of meta (some content) =
    some (record { metadata = read_parts (split "," meta) end; content = strip content })

-- behind the opening parenthesis: the metadata up to the first closing one, and the content
abbrev pub read_meta : Option (String × String) → Option MemoryLine
read_meta none = none
read_meta (some (meta, after)) = line_of meta (spaces after)

abbrev pub read_open : Option String → Option MemoryLine
read_open none = none
read_open (some s) = read_meta (cut ")" s)

abbrev pub read_dash : Option String → Option MemoryLine
read_dash none = none
read_dash (some s) = read_open (drop_prefix "(" s)

abbrev pub read_spaces : Option String → Option MemoryLine
read_spaces none = none
read_spaces (some s) = read_dash (spaces s)

-- `_parse_memory_line`
unfoldable pub parse_memory_line : String → Option MemoryLine
unfolding read_parts split cut lstrip_by strip drop_prefix
parse_memory_line line = read_spaces (drop_prefix "-" (strip line))
