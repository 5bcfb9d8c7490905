-- ===== src/Tools/Builtin.antt =====
-- The tools that `ToolRegistry` of backend/domain/tools.py registers when it is built, and those of the
-- gateways and of A2A. `services` gives a bound method by its name.
use soul_claw.Base.{
  String, Bool, true, false, ◌≡◌, refl, List, [], ◌∷◌, ◌++◌, some, All, str_eq, ◌||◌, if◌then◌else◌,
  Sink, ℕ,
}
use soul_claw.Tools.State.{ToolDefinition, Handler}
use soul_claw.Tools.Registry.{Registry, register, register_many}

module _ {S : Type 0} where
  abbrev pub definition : String → String → String → Bool → Handler S → ToolDefinition S
  definition name description scope requires_approval handler = record {
    name = name;
    description = description;
    scope = scope;
    requires_approval = requires_approval;
    available = true;
    handler = some handler;
  }

  unfoldable pub wiki_tools : (String → Handler S) → List (ToolDefinition S)
  wiki_tools services =
      definition "wiki_orient"
        "Read LLM-Wiki schema, index, recent log, and page map before retrieval." "wiki.read" false
        (services "_wiki_orient")
      ∷ definition "wiki_route"
          "Plan an LLM-Wiki retrieval route: search-first, browse-first, bridge, or insufficient."
          "wiki.read" false (services "_wiki_route")
      ∷ definition "wiki_browse"
          "Browse LLM-Wiki pages by path prefix, page type, and index-linked map." "wiki.read" false
          (services "_wiki_browse")
      ∷ definition "wiki_search"
          "Search the Wiki page index with structured ranking and FTS fallback. Use wiki_read before relying on a page as evidence."
          "wiki.read" false (services "_wiki_search")
      ∷ definition "wiki_read" "Read a compiled Wiki page by page_key." "wiki.read" false
          (services "_wiki_read")
      ∷ definition "wiki_follow_links" "Traverse resolved Wiki links from or to a page_key."
          "wiki.read" false (services "_wiki_follow_links")
      ∷ definition "wiki_sufficiency_check"
          "Check whether Wiki-backed claims have page-level evidence from wiki_read." "wiki.read"
          false (services "_wiki_sufficiency_check")
      ∷ definition "wiki_lint" "Lint LLM-Wiki structure and write Error Book entries." "wiki.write"
          false (services "_wiki_lint")
      ∷ definition "wiki_repair"
          "Repair low-risk LLM-Wiki structure issues and create review proposals for high-risk Error Book items."
          "wiki.write" true (services "_wiki_repair")
      ∷ definition "wiki_compile"
          "Compile Markdown Wiki source into the local page/link/error-book index." "wiki.write"
          false (services "_wiki_compile")
      ∷ []

  unfoldable pub memory_and_skill_tools : (String → Handler S) → List (ToolDefinition S)
  memory_and_skill_tools services =
      definition "memory_search"
        "Search long-term memory index and return readable memory references." "memory.read" false
        (services "_memory_search")
      ∷ definition "memory_get" "Read one long-term memory item by id." "memory.read" false
          (services "_memory_get")
      ∷ definition "memory_create" "Create an L2/L3 memory item." "memory.write" false
          (services "_memory_create")
      ∷ definition "skill_search"
          "Search the skill index for procedural guidance. Use before reading a full skill."
          "skill.read" false (services "_skill_search")
      ∷ definition "skill_read"
          "Read one skill's indexed files by skill_key after skill_search indicates it is relevant."
          "skill.read" false (services "_skill_read")
      ∷ definition "skill_use_trace"
          "Record that a skill was used and whether it helped, as a skill_trace memory."
          "memory.write" false (services "_skill_use_trace")
      ∷ definition "skills_scan" "Scan workspace skills and rebuild skill indexes." "skill.read"
          false (services "_skills_scan")
      ∷ definition "skill_test"
          "Run safe skill tests, including lint, golden prompt, mock tool, and regression checks."
          "skill.read" false (services "_skill_test")
      ∷ []

  unfoldable pub registry_tools : (String → Handler S) → List (ToolDefinition S)
  registry_tools services =
      definition "tool_search" "Search available SoulClaw tools by name, description, and scope."
        "system.read" false (services "_tool_search")
      ∷ definition "tool_describe" "Describe one available tool and return its parameter schema."
          "system.read" false (services "_tool_describe")
      ∷ definition "tool_call"
          "Call a named available tool after discovering it with tool_search/tool_describe."
          "system.write" false (services "_tool_call")
      ∷ []

  -- `_register_builtin_tools`, in the order of the source
  unfoldable pub register_builtin_tools : (String → Handler S) → Registry S → Registry S
  unfolding wiki_tools memory_and_skill_tools registry_tools
  register_builtin_tools services reg =
      register_many
        (wiki_tools services ++ (memory_and_skill_tools services ++ registry_tools services)) reg

  unfoldable pub install_gateway : (String → Handler S) → Registry S → Registry S
  unfolding register
  install_gateway services = register (
      definition "gateway_send" "Send a message through an enabled gateway connection."
        "external.write" true (services "_gateway_send"))

  unfoldable pub install_a2a : (String → Handler S) → Registry S → Registry S
  unfolding register
  install_a2a services = register (
      definition "a2a_delegate"
        "Delegate a coarse-grained task to an enabled A2A specialist agent. Use for DeepResearch, document projects, scheduling, or coding agents."
        "external.write" false (services "_a2a_delegate"))

  -- `__init__`: the gateway and the A2A tool are there when their manager is.
  unfoldable pub new_registry : (String → Handler S) → Bool → Bool → Sink → ℕ → Registry S
  unfolding register_builtin_tools install_gateway install_a2a
  new_registry services gateway a2a sink limit =
      let built =
        register_builtin_tools services
          (record { tools = []; sink = sink; max_direct_tool_schemas = limit }) in
      let with_gateway = if gateway then install_gateway services built else built in
      if a2a then install_a2a services with_gateway else with_gateway

  abbrev pub Guarded : ToolDefinition S → Type 0
  Guarded d = d.requires_approval ≡ (str_eq d.name "wiki_repair" || str_eq d.name "gateway_send")

  -- Of the tools of a new registry, `wiki_repair` and `gateway_send` require approval, and no other.
  pub new_registry-Guarded :
      (services : String → Handler S) (gateway a2a : Bool) (sink : Sink) (limit : ℕ)
      → All Guarded (new_registry services gateway a2a sink limit).tools
  unfolding new_registry register_many
  new_registry-Guarded services true true sink limit = (
    refl,
    (
      refl,
      (
        refl,
        (
          refl,
          (
            refl,
            (
              refl,
              (
                refl,
                (
                  refl,
                  (
                    refl,
                    (
                      refl,
                      (
                        refl,
                        (
                          refl,
                          (
                            refl,
                            (
                              refl,
                              (
                                refl,
                                (refl, (refl, (refl, (refl, (refl, (refl, (refl, (refl, tt)))))))),
                              ),
                            ),
                          ),
                        ),
                      ),
                    ),
                  ),
                ),
              ),
            ),
          ),
        ),
      ),
    ),
  )
  new_registry-Guarded services true false sink limit = (
    refl,
    (
      refl,
      (
        refl,
        (
          refl,
          (
            refl,
            (
              refl,
              (
                refl,
                (
                  refl,
                  (
                    refl,
                    (
                      refl,
                      (
                        refl,
                        (
                          refl,
                          (
                            refl,
                            (
                              refl,
                              (refl, (refl, (refl, (refl, (refl, (refl, (refl, (refl, tt)))))))),
                            ),
                          ),
                        ),
                      ),
                    ),
                  ),
                ),
              ),
            ),
          ),
        ),
      ),
    ),
  )
  new_registry-Guarded services false true sink limit = (
    refl,
    (
      refl,
      (
        refl,
        (
          refl,
          (
            refl,
            (
              refl,
              (
                refl,
                (
                  refl,
                  (
                    refl,
                    (
                      refl,
                      (
                        refl,
                        (
                          refl,
                          (
                            refl,
                            (
                              refl,
                              (refl, (refl, (refl, (refl, (refl, (refl, (refl, (refl, tt)))))))),
                            ),
                          ),
                        ),
                      ),
                    ),
                  ),
                ),
              ),
            ),
          ),
        ),
      ),
    ),
  )
  new_registry-Guarded services false false sink limit = (
    refl,
    (
      refl,
      (
        refl,
        (
          refl,
          (
            refl,
            (
              refl,
              (
                refl,
                (
                  refl,
                  (
                    refl,
                    (
                      refl,
                      (
                        refl,
                        (
                          refl,
                          (
                            refl,
                            (refl, (refl, (refl, (refl, (refl, (refl, (refl, (refl, tt)))))))),
                          ),
                        ),
                      ),
                    ),
                  ),
                ),
              ),
            ),
          ),
        ),
      ),
    ),
  )
