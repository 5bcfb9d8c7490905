-- ===== src/Tools/Names.antt =====
-- Looking a tool up after the registry changed.
use soul_claw.Base.{
  ◌+◌, String, ◌≡◌, refl, List, [], ◌∷◌, none, some, arith, str_eq, eq_iff, starts_with,
  if◌then◌else◌, length, Bool-cases, inl, inr, ap,
}
use soul_claw.Tools.State.{ToolDefinition}
use soul_claw.Tools.Registry.{
  Registry, get, find_tool, put_tool, register, remove_prefix, names_with, unregister_prefix,
}

module _ {S : Type 0} where
  find_tool-put_tool :
      (d : ToolDefinition S) (ts : List (ToolDefinition S)) (name : String)
      → find_tool name (put_tool d ts) ≡ (if str_eq d.name name then some d else find_tool name ts)
  unfolding find_tool put_tool
  find_tool-put_tool d [] name = refl
  find_tool-put_tool d (t ∷ ts) name = ground (
    arith,
    eq_iff t.name d.name,
    eq_iff t.name name,
    eq_iff d.name name,
    find_tool-put_tool d ts name,
  )

  -- A registered tool is the one that its name finds, and no other name is affected.
  pub get-register :
      (d : ToolDefinition S) (reg : Registry S) (name : String)
      → get (register d reg) name ≡ (if str_eq d.name name then some d else get reg name)
  unfolding get register
  get-register d reg name = find_tool-put_tool d reg.tools name

  find_tool-remove_prefix :
      (prefix : String) (ts : List (ToolDefinition S)) (name : String)
      → find_tool name (remove_prefix prefix ts)
        ≡ (if starts_with name prefix then none else find_tool name ts)
  unfolding find_tool remove_prefix
  find_tool-remove_prefix prefix [] name = ground arith
  find_tool-remove_prefix prefix (t ∷ ts) name = elim (Bool-cases (str_eq t.name name)) [
    | inl same ↦ ground (
      arith,
      find_tool-remove_prefix prefix ts name,
      ap (λ (n : String). starts_with n prefix) ((eq_iff t.name name).0 same),
    )
    | inr other ↦ ground (arith, find_tool-remove_prefix prefix ts name)
  ]

  removed_count :
      (prefix : String) (ts : List (ToolDefinition S))
      → length (names_with prefix ts) + length (remove_prefix prefix ts) ≡ length ts
  unfolding names_with remove_prefix
  removed_count prefix [] = omega arith
  removed_count prefix (t ∷ ts) = ground (arith, removed_count prefix ts)

  -- `unregister_prefix` removes exactly the tools whose name has the prefix, and returns how many.
  pub get-unregister_prefix :
      (prefix : String) (reg : Registry S) (name : String)
      → let (n, after) = unregister_prefix prefix reg in
        (get after name ≡ (if starts_with name prefix then none else get reg name))
        × (n + length after.tools ≡ length reg.tools)
  unfolding get unregister_prefix
  get-unregister_prefix prefix reg name =
      (find_tool-remove_prefix prefix reg.tools name, removed_count prefix reg.tools)
