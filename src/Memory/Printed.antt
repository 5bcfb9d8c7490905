-- ===== src/Memory/Printed.antt =====
-- What `_memory_file_line` prints and `_parse_memory_line` reads.
use Prim.Native.String.append
use Prim.Native.String.compare
use Prim.Native.String.{◌++◌ as concat}
use Prim.Native.Char.{Char}
use text.Mathlib.TextLemmas.{append-nil as concat-nil, append_assoc as concat_assoc}
use soul_claw.Base.{
  String, false, ◌≡◌, refl, sym, ap, ◌∙◌, List, [], ◌∷◌, none, some, Fields, string, end, field,
  field_put, is_empty, is_space, rstrip_by, lstrip_by, strip, cut, All, drop_prefix,
}
use soul_claw.Memory.State.{Memory, Floats}
use soul_claw.Memory.Files.{memory_file_line}
use soul_claw.Memory.Lines.{read_part, read_parts, read_meta, parse_memory_line}
use soul_claw.Memory.Pieces.{
  cut-piece, cut-append, split-joined, cut-joined, joined, rstrip-append, is_empty-append,
  comma-piece, rstrip-cons, is_empty-cons, is_empty-joined, rstrip-joined, lstrip-strip,
  rstrip-strip, strip-strip,
}

-- A value that the line can hold: it is not empty, has no white space around, and no character that
-- the line's grammar uses.
pub record IsPlain (v : String) : Type 0 where
  pub filled : is_empty v ≡ false
  pub trimmed : strip v ≡ v
  pub no_equals : cut "=" v ≡ none
  pub no_comma : cut "," v ≡ none
  pub no_close : cut ")" v ≡ none

plain-rstrip : (v : String) → IsPlain v → rstrip_by is_space v ≡ v
plain-rstrip v h = ap (rstrip_by is_space) (sym h.trimmed) ∙ rstrip-strip v ∙ h.trimmed

-- the pair of a key, which begins with `c`, as the line holds it
abbrev pair : Char → String → String → String
pair c k v = concat (String.◌∷◌ " " (String.◌∷◌ c (concat k "="))) v

pair-cons :
    (c : Char) (k v : String)
    → pair c k v ≡ String.◌∷◌ " " (concat (String.◌∷◌ c k) (String.◌∷◌ "=" v))
pair-cons c k v =
    append.cons " " (String.◌∷◌ c (concat k "=")) v
    ∙ ap (λ s. String.◌∷◌ " " s)
        (append.cons c (concat k "=") v
          ∙ ap (λ s. String.◌∷◌ c s)
              (concat_assoc k "=" v
                ∙ ap (concat k) (append.cons "=" "" v ∙ ap (λ s. String.◌∷◌ "=" s) (append.nil v)))
          ∙ sym (append.cons c k (String.◌∷◌ "=" v)))

strip-pair :
    (c : Char) (k v : String)
    → is_space c ≡ false
    → IsPlain v
    → strip (pair c k v) ≡ concat (String.◌∷◌ c k) (String.◌∷◌ "=" v)
unfolding strip lstrip_by
strip-pair c k v ns h =
    rw
      (rstrip-append is_space (String.◌∷◌ " " (String.◌∷◌ c (concat k "="))) v (plain-rstrip v h)
        h.filled)
      (rw (pair-cons c k v) (rw (append.cons c k (String.◌∷◌ "=" v)) (rw ns refl)))

read_part-pair :
    (c : Char) (k v : String) (metadata : Fields)
    → is_space c ≡ false
    → cut "=" (String.◌∷◌ c k) ≡ none
    → strip (String.◌∷◌ c k) ≡ String.◌∷◌ c k
    → IsPlain v
    → read_part (pair c k v) metadata ≡ field_put (String.◌∷◌ c k) (string v) metadata
unfolding read_part
read_part-pair c k v metadata ns free whole h = rw (strip-pair c k v ns h) (
    rw (is_empty-append (String.◌∷◌ c k) (String.◌∷◌ "=" v) (rw (compare.cons-nil "=" v) refl))
      (rw (cut-piece "=" (String.◌∷◌ c k) v free) (rw (whole, h.trimmed) refl)))

read_part-kind : (v : String) → IsPlain v → read_part v end ≡ field "kind" (string v) end
unfolding read_part field_put
read_part-kind v h = rw (h.trimmed) (rw h.filled (rw h.no_equals refl))

module _ {F : Type 0} (fl : Floats F) (m : Memory F) where
  -- the parts of the metadata
  abbrev parts : List String
  parts =
      pair "s" "ource" m.source
      ∷ pair "s" "tatus" m.status
      ∷ pair "i" "mportance" (fl.fixed2 m.importance)
      ∷ pair "c" "onfidence" (fl.fixed2 m.confidence)
      ∷ pair "s" "tability" (fl.fixed2 m.stability)
      ∷ []

  -- what is read of them
  abbrev pub printed : Fields
  printed = field "kind" (string m.kind) (
      field "source" (string m.source) (
        field "status" (string m.status) (
          field "importance" (string (fl.fixed2 m.importance)) (
            field "confidence" (string (fl.fixed2 m.confidence))
              (field "stability" (string (fl.fixed2 m.stability)) end)))))

  -- The memory's columns are plain, and its content is not blank.
  pub record IsPrintable : Type 0 where
    pub kind : IsPlain m.kind
    pub source : IsPlain m.source
    pub status : IsPlain m.status
    pub importance : IsPlain (fl.fixed2 m.importance)
    pub confidence : IsPlain (fl.fixed2 m.confidence)
    pub stability : IsPlain (fl.fixed2 m.stability)
    pub filled : is_empty (strip m.content) ≡ false

  read_parts-printed : IsPrintable → read_parts (m.kind ∷ parts) end ≡ printed
  unfolding read_parts field_put
  read_parts-printed h = rw (read_part-kind m.kind h.kind) (
      rw (read_part-pair "s" "ource" m.source _ refl refl refl h.source) (
        rw (read_part-pair "s" "tatus" m.status _ refl refl refl h.status) (
          rw (read_part-pair "i" "mportance" (fl.fixed2 m.importance) _ refl refl refl h.importance)
            (rw
              (read_part-pair "c" "onfidence" (fl.fixed2 m.confidence) _ refl refl refl
                h.confidence)
              (rw
                (read_part-pair "s" "tability" (fl.fixed2 m.stability) _ refl refl refl h.stability)
                refl)))))

  -- the line, from the metadata on
  abbrev behind_open : String
  behind_open = joined (m.kind ∷ parts) (String.◌∷◌ ")" (String.◌∷◌ " " (strip m.content)))

  line-shape : IsPrintable → memory_file_line fl m ≡ concat "- (" behind_open
  unfolding memory_file_line
  line-shape h = rw h.status.filled (
      ap (concat "- (") (
        ap (concat m.kind) (
          comma-piece " source=" m.source _
          ∙ ap (λ s. String.◌∷◌ "," (concat (pair "s" "ource" m.source) s))
              (comma-piece " status=" m.status _
                ∙ ap (λ s. String.◌∷◌ "," (concat (pair "s" "tatus" m.status) s))
                    (comma-piece " importance=" (fl.fixed2 m.importance) _
                      ∙ ap
                          (λ s.
                            String.◌∷◌ ","
                              (concat (pair "i" "mportance" (fl.fixed2 m.importance)) s))
                          (comma-piece " confidence=" (fl.fixed2 m.confidence) _
                            ∙ ap
                                (λ s.
                                  String.◌∷◌ ","
                                    (concat (pair "c" "onfidence" (fl.fixed2 m.confidence)) s))
                                (comma-piece " stability=" (fl.fixed2 m.stability) _
                                  ∙ ap
                                      (λ s.
                                        String.◌∷◌ ","
                                          (concat (pair "s" "tability" (fl.fixed2 m.stability)) s))
                                      (append.cons ")" " " (concat (strip m.content) "")
                                        ∙ ap (λ s. String.◌∷◌ ")" s)
                                            (append.cons " " "" (concat (strip m.content) "")
                                              ∙ ap (λ s. String.◌∷◌ " " s)
                                                  (append.nil _
                                                    ∙ concat-nil (strip m.content)))))))))))

  behind_open-rstrip : IsPrintable → rstrip_by is_space behind_open ≡ behind_open
  behind_open-rstrip h =
      let spaced = String.◌∷◌ " " (strip m.content) in
      rstrip-joined is_space m.kind parts (String.◌∷◌ ")" spaced)
        (rstrip-cons is_space ")" spaced
          (rstrip-cons is_space " " (strip m.content) (rstrip-strip m.content) h.filled)
          (is_empty-cons " " (strip m.content)))
        (is_empty-cons ")" spaced)

  line-strip : IsPrintable → strip (concat "- (" behind_open) ≡ concat "- (" behind_open
  unfolding strip lstrip_by
  line-strip h =
      let ending =
        rstrip-append is_space "- (" behind_open (behind_open-rstrip h)
          (is_empty-joined m.kind parts _ (is_empty-cons ")" (String.◌∷◌ " " (strip m.content)))) in
      rw ending (rw (append.cons "-" " (" behind_open) refl)

  -- No part holds a comma or a closing parenthesis.
  parts-Commas : IsPrintable → All (λ p. cut "," p ≡ none) (m.kind ∷ parts)
  unfolding cut
  parts-Commas h = (
    h.kind.no_comma,
    (
      cut-append "," " source=" m.source refl h.source.no_comma,
      (
        cut-append "," " status=" m.status refl h.status.no_comma,
        (
          cut-append "," " importance=" (fl.fixed2 m.importance) refl h.importance.no_comma,
          (
            cut-append "," " confidence=" (fl.fixed2 m.confidence) refl h.confidence.no_comma,
            (cut-append "," " stability=" (fl.fixed2 m.stability) refl h.stability.no_comma, tt),
          ),
        ),
      ),
    ),
  )

  parts-Closes : IsPrintable → All (λ p. cut ")" p ≡ none) (m.kind ∷ parts)
  unfolding cut
  parts-Closes h = (
    h.kind.no_close,
    (
      cut-append ")" " source=" m.source refl h.source.no_close,
      (
        cut-append ")" " status=" m.status refl h.status.no_close,
        (
          cut-append ")" " importance=" (fl.fixed2 m.importance) refl h.importance.no_close,
          (
            cut-append ")" " confidence=" (fl.fixed2 m.confidence) refl h.confidence.no_close,
            (cut-append ")" " stability=" (fl.fixed2 m.stability) refl h.stability.no_close, tt),
          ),
        ),
      ),
    ),
  )

  read_meta-behind_open :
      IsPrintable
      → read_meta (cut ")" behind_open)
        ≡ some (record { metadata = printed; content = strip m.content })
  unfolding lstrip_by
  read_meta-behind_open h =
      rw (cut-joined m.kind parts (String.◌∷◌ " " (strip m.content)) (parts-Closes h)) (
        rw
          (
            split-joined m.kind parts (parts-Commas h),
            read_parts-printed h,
            lstrip-strip m.content,
            strip-strip m.content,
          )
          refl)

  -- What is printed of a memory is read back: its kind, source and status, the three numbers as they
  -- were printed, and its content without the white space around it, over as many lines as it has.
  pub parse_memory_line-memory_file_line :
      IsPrintable
      → parse_memory_line (memory_file_line fl m)
        ≡ some (record { metadata = printed; content = strip m.content })
  unfolding parse_memory_line drop_prefix cut lstrip_by
  parse_memory_line-memory_file_line h = rw (line-shape h) (
      rw (line-strip h) (
        rw (append.cons "-" " (" behind_open) (
          rw (append.cons " " "(" behind_open) (
            rw (append.cons "(" "" behind_open)
              (rw (append.nil behind_open) ((read_meta-behind_open h)))))))
