-- ===== src/ToolExec/Dispatch.antt =====
-- The tools that the model is told of and those that its calls run.
use pirs.Prelude.{
  ℕ, suc, ◌≡◌, refl, Bool, not, ◌&&◌, Option, none, some, List, [], ◌∷◌, map, arith, if◌then◌else◌,
  is_some, ◌>>=◌,
}
use pirs.Prelude.Lists.{find, count}
use pirs.Prelude.Text.{Text, text_eq, eq_of_text_eq, text_eq_refl}
use pirs.ToolExec.Host.{AgentTool}
use pirs.ToolExec.Prepare.{
  ToolDef, register_tool, registered, tool_def, tool_defs, first_named, last_named,
}

abbrev pub named : {V : Type 0} → Text → ToolDef V → Bool
named name d = text_eq d.name name

abbrev or_first {ℓ} : {A : Type ℓ} → Option A → Option A → Option A
or_first none b = b
or_first (some a) b = some a

abbrev pub one_if : Bool → ℕ
one_if b = if b then 1 else 0

module _ {V W : Type 0} where
  first_named-register_tool :
      (name : Text) (t : AgentTool V W) (us : List (AgentTool V W))
      → first_named name (register_tool t us)
        ≡ (if text_eq t.name name then some t else first_named name us)
  unfolding first_named register_tool
  first_named-register_tool name t [] = refl
  first_named-register_tool name t (u ∷ us) = ground (
    arith,
    first_named-register_tool name t us,
    eq_of_text_eq u.name t.name,
    eq_of_text_eq u.name name,
    eq_of_text_eq t.name name,
    text_eq_refl t.name,
  )

  first_named-registered :
      (name : Text) (known tools : List (AgentTool V W))
      → first_named name (registered known tools)
        ≡ or_first (last_named name tools) (first_named name known)
  unfolding registered last_named
  first_named-registered name known [] = refl
  first_named-registered name known (t ∷ ts) = ground (
    arith,
    first_named-registered name (register_tool t known) ts,
    first_named-register_tool name t known,
  )

  count-named-register_tool :
      (name : Text) (t : AgentTool V W) (us : List (AgentTool V W))
      → count (named name) (map tool_def (register_tool t us)) ≡ (
          if text_eq t.name name && not (is_some (first_named name us))
          then suc (count (named name) (map tool_def us))
          else count (named name) (map tool_def us))
  unfolding first_named register_tool tool_def
  count-named-register_tool name t [] = ground arith
  count-named-register_tool name t (u ∷ us) = ground (
    arith,
    count-named-register_tool name t us,
    eq_of_text_eq u.name t.name,
    eq_of_text_eq u.name name,
    eq_of_text_eq t.name name,
    text_eq_refl t.name,
  )

  count-named-registered :
      (name : Text) (known tools : List (AgentTool V W))
      → count (named name) (map tool_def known) ≡ one_if (is_some (first_named name known))
      → count (named name) (map tool_def (registered known tools))
        ≡ one_if (is_some (first_named name (registered known tools)))
  unfolding registered
  count-named-registered name known [] e = e
  count-named-registered name known (t ∷ ts) e =
      count-named-registered name (register_tool t known) ts (
        ground
          (arith, count-named-register_tool name t known, first_named-register_tool name t known))

  find-named-map :
      (name : Text) (us : List (AgentTool V W))
      → find (named name) (map tool_def us) ≡ (first_named name us >>= (λ t. some (tool_def t)))
  unfolding first_named tool_def
  find-named-map name [] = refl
  find-named-map name (u ∷ us) = ground (arith, find-named-map name us)

  -- The model is told of every name at most once, and what it is told is the description and the
  -- schema of the very tool that a call of that name runs, the last one registered.
  pub tool_defs-last_named :
      (name : Text) (tools : List (AgentTool V W))
      → (find (named name) (tool_defs tools) ≡ (last_named name tools >>= (λ t. some (tool_def t))))
        × (count (named name) (tool_defs tools) ≡ one_if (is_some (last_named name tools)))
  unfolding tool_defs first_named
  tool_defs-last_named name tools =
      let e = first_named-registered name [] tools in
      let c = count-named-registered name [] tools refl in
      (ground (arith, e, find-named-map name (registered [] tools)), ground (arith, e, c))
