-- ===== src/Memory/Tests.antt =====
-- The theorems on memories at concrete rows, with floats as whole thousandths.
use soul_claw.Base.{
  ℕ, ◌+◌, ◌-◌, ◌*◌, ◌/◌, ◌≤◌, min, max, String, true, false, ◌≡◌, refl, [], ◌∷◌, ◌++◌, none, some,
  length, All, ok, err, or_else, value_error, end, ltb, str, str_eq, strip, cut,
}
use soul_claw.Memory.State.{
  Floats, Memory, MemoryHistory, MemoryDb, MemoryEnv, sqlite, snapshot, find_memory, find_history,
  clamp,
}
use soul_claw.Memory.Create.{new_memory, superseded}
use soul_claw.Memory.Service.{Replacement, archive, restore, supersede, replacement_of}
use soul_claw.Memory.Ranking.{Ranked}
use soul_claw.Memory.Search.{search}
use soul_claw.Memory.Restore.{IsRestorable, restore-archive}
use soul_claw.Memory.Steps.{replaced_row, history_row}
use soul_claw.Memory.Replace.{supersede_lem, supersede_history}
use soul_claw.Memory.Found.{IsActive, search-IsActive}
use soul_claw.Memory.Proposals.{EvolutionProposal, apply_proposal, done, with_actor}
use soul_claw.Memory.Applied.{applied_once}
use soul_claw.Memory.Files.{memory_file_line}
use soul_claw.Memory.Lines.{parse_memory_line}
use soul_claw.Memory.Printed.{IsPlain, IsPrintable, printed, parse_memory_line-memory_file_line}

abbrev thousandths : Floats ℕ
thousandths = record {
  lt = ltb;
  add = λ a b. a + b;
  sub = λ a b. a - b;
  mul = λ a b. a * b / 1000;
  div = λ a b. a * 1000 / b;
  ratio = λ a b. a * 1000 / b;
  fixed2 = λ a. str (a / 10);
  round4 = λ a. a;
}

abbrev env : MemoryEnv ℕ
env = record {
  floats = thousandths;
  now = 5;
  uuid4 = λ n. str n;
  lower = λ s. s;
  isoformat = λ t. str t;
  fromisoformat = λ s. none;
  repr = λ d. "{}";
  memory_path = "MEMORY.md";
  workspace_error = none;
  backend = sqlite;
  fts_error = none;
  fts_match = λ rows query limit. [];
  ilike = λ s t. true;
}

abbrev tea : Memory ℕ
tea = record {
  id = "m";
  kind = "user_fact";
  content = "likes tea";
  source = "explicit";
  status = "active";
  pinned = false;
  archived = false;
  importance = 500;
  confidence = 700;
  stability = 0;
  supersedes_id = none;
  superseded_by = none;
  source_turn_id = "";
  source_file_marker = "<!-- soulclaw:memory id=m -->";
  valid_to = none;
  provenance = end;
  metadata = end;
  last_verified_at = none;
  updated_at = 1;
}

abbrev kept : MemoryHistory ℕ
kept = record {
  id = "h";
  memory_id = some "m";
  action = "verify";
  before_snapshot = some (snapshot tea);
  after_snapshot = none;
  actor = "memory-service";
}

abbrev db : MemoryDb ℕ
db = record {
  memories = tea ∷ [];
  history = kept ∷ [];
  conflicts = [];
  probes = [];
  fts = none;
  file = "# Memory\n";
  sink = record { attached = true; runtime = []; audits = [] };
  supply = 7;
}

tea-IsRestorable : IsRestorable thousandths tea
unfolding clamp
tea-IsRestorable = record {
  has_id = refl;
  has_kind = refl;
  has_content = refl;
  has_source = refl;
  has_status = refl;
  has_marker = refl;
  clamped_importance = refl;
  clamped_confidence = refl;
  clamped_stability = refl;
}

restore-archive_example :
    find_memory "m" (restore (record env { now = 9 }) "7" "admin" (archive env "m" db).1).1.memories
    ≡ some (record tea { updated_at = 9 })
unfolding find_memory find_history str
restore-archive_example = restore-archive env 9 "m" "admin" tea db tea-IsRestorable refl refl

abbrev coffee : Replacement ℕ
coffee = record {
  kind = "";
  content = "likes coffee";
  source = none;
  pinned = some true;
  importance = none;
  confidence = some 2000;
  stability = none;
  metadata = end;
}

supersede_lem_example :
    let (answer, after) = supersede env "m" coffee db in
    (new : Memory ℕ) × (answer ≡ ok new)
    × (find_memory "7" after.memories ≡ some new)
    × ((new.id ≡ "7")
        × (new.status ≡ "active")
        × (new.archived ≡ false)
        × (new.supersedes_id ≡ some "m")
        × (new.superseded_by ≡ none)
        × (new.content ≡ coffee.content)
        × (new.kind ≡ or_else coffee.kind "user_fact"))
    × (find_memory "m" after.memories
        ≡ some (record tea {
          archived = true;
          status = "superseded";
          superseded_by = some "7";
          updated_at = 5;
        }))
    × ((k : String)
        → str_eq "m" k ≡ false
        → str_eq "7" k ≡ false
        → find_memory k after.memories ≡ find_memory k db.memories)
unfolding find_memory str
supersede_lem_example = supersede_lem env "m" coffee tea db refl refl

supersede_history_example :
    let new = new_memory env "7" (replacement_of "m" tea coffee) in
    (supersede env "m" coffee db).1.history
    ≡ db.history
      ++ (history_row env "m" "superseded_by_create"
            (some (snapshot (superseded tea)))
            none
            "supersede"
            8
          ∷ history_row env new.id "create" none (some (snapshot new)) "supersede" 9
          ∷ history_row env "m" "supersede"
              (some (snapshot tea))
              (some (snapshot (replaced_row env tea 7)))
              "supersede"
              10
          ∷ [])
unfolding find_memory str
supersede_history_example = supersede_history env "m" coffee tea db refl

abbrev hit : String → ℕ → Ranked ℕ
hit content score = record {
  score = score;
  source = "memory_index";
  memory = record tea { content = content };
  match_reasons = [];
}

search-IsActive_example :
    All (IsActive env) (search env "tea" 3 db) × (length (search env "tea" 3 db) ≤ max 1 (min 3 50))
search-IsActive_example = search-IsActive env "tea" 3 db

abbrev proposal : EvolutionProposal ℕ
proposal = record {
  id = "p";
  target_type = "memory";
  action = "verify";
  status = "approved";
  payload = record {
    memory_id = some "m";
    kind = "";
    content = none;
    source = none;
    pinned = none;
    importance = none;
    confidence = none;
    stability = none;
    confidence_delta = none;
    metadata = end;
  };
  before_snapshot = none;
  after_snapshot = end;
  result = end;
  applied_at = none;
}

abbrev applied_proposal : EvolutionProposal ℕ
applied_proposal = record proposal {
  status = "applied";
  before_snapshot = some (snapshot tea);
  after_snapshot = done "verify" "m";
  result = with_actor "admin" (done "verify" "m");
  applied_at = some 5;
}

applied_once_example :
    apply_proposal env "p" "again" (some applied_proposal) db
    ≡ (err (value_error "proposal is not applyable: applied"), db)
unfolding apply_proposal
applied_once_example = applied_once env "p" "admin" "again" proposal applied_proposal db db refl

tea_kind-IsPlain : IsPlain "user_fact"
unfolding strip cut
tea_kind-IsPlain = record {
  filled = refl;
  trimmed = refl;
  no_equals = refl;
  no_comma = refl;
  no_close = refl;
}

tea_source-IsPlain : IsPlain "explicit"
unfolding strip cut
tea_source-IsPlain = record {
  filled = refl;
  trimmed = refl;
  no_equals = refl;
  no_comma = refl;
  no_close = refl;
}

tea_status-IsPlain : IsPlain "active"
unfolding strip cut
tea_status-IsPlain = record {
  filled = refl;
  trimmed = refl;
  no_equals = refl;
  no_comma = refl;
  no_close = refl;
}

two_digits-IsPlain : IsPlain "50"
unfolding strip cut
two_digits-IsPlain = record {
  filled = refl;
  trimmed = refl;
  no_equals = refl;
  no_comma = refl;
  no_close = refl;
}

abbrev halves : Floats ℕ
halves = record thousandths { fixed2 = λ a. "50" }

tea-IsPrintable : IsPrintable halves tea
unfolding strip
tea-IsPrintable = record {
  kind = tea_kind-IsPlain;
  source = tea_source-IsPlain;
  status = tea_status-IsPlain;
  importance = two_digits-IsPlain;
  confidence = two_digits-IsPlain;
  stability = two_digits-IsPlain;
  filled = refl;
}

parse_memory_line-memory_file_line_example :
    parse_memory_line (memory_file_line halves tea)
    ≡ some (record { metadata = printed halves tea; content = strip tea.content })
parse_memory_line-memory_file_line_example =
    parse_memory_line-memory_file_line halves tea tea-IsPrintable
