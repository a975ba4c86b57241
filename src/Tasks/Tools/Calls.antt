-- ===== src/Tasks/Tools/Calls.antt =====
-- Calls that conform to the schemas that the server lists.
use sd_practice_qr_code_gene.Base.{
  ℕ, true, false, some, [], ◌∷◌, ◌≡◌, ◌⊎◌, inl, inr, refl, arith, All, if_pos, if_neg, ap, ◌∙◌,
  Bool-cases, sym, Has,
}
use mathlib.Core.Path.{subst}
use sd_practice_qr_code_gene.Base.Text.{Text, codes, text_dec, is_in}
use sd_practice_qr_code_gene.Tasks.{Calendar, JobTable}
use sd_practice_qr_code_gene.Tasks.Handlers.{
  Reply, type_error, handle_create_task, handle_get_status, handle_list_tasks, handle_cancel_task,
}
use sd_practice_qr_code_gene.Tasks.Tools.{
  JsonType, string, integer, Value, text, number, other_integer, Arguments, Tool, tool_definitions,
  Handler, registry_from, tool_registry, parameters, value_of, all_in, names, call_create,
  call_status, call_cancel, call_handler, create_definition, list_definition, status_definition,
  cancel_definition, create_task, list_tasks, get_status, cancel_task, apply_handler,
  route_tool_call, list_tools,
}

-- A value of a type.
pub data HasType : JsonType → Value → Type 0 where
  is_text : (t : Text) → HasType string (text t)
  is_number : (n : ℕ) → HasType integer (number n)
  is_other : HasType integer other_integer

-- What an `inputSchema` asks of an object: each property that it requires is there, and has its
-- type. Other properties are allowed.
pub record Conforms (tool : Tool) (arguments : Arguments) : Type 0 where
  pub given : all_in tool.required (names arguments) ≡ true
  pub typed :
      All (λ p. (v : Value) → value_of arguments p.0 ≡ some v → HasType p.1 v) tool.properties

module _ (C : Calendar) (T : JobTable) (odd : T.State → Handler → Arguments → T.State × Reply) where
  -- What a tool of this name does with its arguments; the database has its own answer to an id that
  -- its column cannot hold, or that is negative.
  pub data IsCalled (db : T.State) (arguments : Arguments) : Text → T.State × Reply → Type 0 where
    creates :
        (d t : Text)
        → value_of arguments (codes "description") ≡ some (text d)
        → value_of arguments (codes "scheduled_at") ≡ some (text t)
        → IsCalled db arguments (codes "task.create") (handle_create_task C T db d t)
    lists : IsCalled db arguments (codes "task.list") (db, handle_list_tasks T db)
    shows :
        (i : ℕ)
        → value_of arguments (codes "job_id") ≡ some (number i)
        → IsCalled db arguments (codes "task.status") (db, handle_get_status T db i)
    cancels :
        (i : ℕ)
        → value_of arguments (codes "job_id") ≡ some (number i)
        → IsCalled db arguments (codes "task.cancel") (handle_cancel_task T db i)
    shows_other :
        value_of arguments (codes "job_id") ≡ some other_integer
        → IsCalled db arguments (codes "task.status") (odd db get_status arguments)
    cancels_other :
        value_of arguments (codes "job_id") ≡ some other_integer
        → IsCalled db arguments (codes "task.cancel") (odd db cancel_task arguments)

  -- A tool is called, or its call is refused because of a name that its schema does not have.
  pub data Routed (db : T.State) (tool : Tool) (arguments : Arguments) (p : T.State × Reply)
      : Type 0 where
    called :
        all_in (names arguments) (names tool.properties) ≡ true
        → IsCalled db arguments tool.name p
        → Routed db tool arguments p
    refused :
        all_in (names arguments) (names tool.properties) ≡ false
        → p ≡ (db, type_error)
        → Routed db tool arguments p

value_of-some :
    (arguments : Arguments) (n : Text)
    → is_in n (names arguments) ≡ true
    → (v : Value) × (value_of arguments n ≡ some v)
unfolding is_in value_of
value_of-some [] n h = absurd (ground arith)
value_of-some ((m, v) ∷ rest) n h = elim (text_dec m n) [
  | yes same ↦ (v, if_pos (text_dec m n) same _ _)
  | no other ↦
      let (w, e) =
        value_of-some rest n
          (ground (arith, if_neg (text_dec n m) (λ same. other (sym same)) true false)) in
      (w, if_neg (text_dec m n) other _ _ ∙ e)
]

HasType-text : (v : Value) → HasType string v → (t : Text) × (v ≡ text t)
HasType-text _ (is_text t) = (t, refl)

HasType-number : (v : Value) → HasType integer v → ((n : ℕ) × (v ≡ number n)) ⊎ (v ≡ other_integer)
HasType-number _ (is_number n) = inl (n, refl)
HasType-number _ is_other = inr refl

-- A required argument of a type.
text_argument :
    (arguments : Arguments) (n : Text)
    → is_in n (names arguments) ≡ true
    → ((v : Value) → value_of arguments n ≡ some v → HasType string v)
    → (t : Text) × (value_of arguments n ≡ some (text t))
text_argument arguments n h typed =
    let (v, e) = value_of-some arguments n h in
    let (t, same) = HasType-text v (typed v e) in (t, e ∙ ap some same)

number_argument :
    (arguments : Arguments) (n : Text)
    → is_in n (names arguments) ≡ true
    → ((v : Value) → value_of arguments n ≡ some v → HasType integer v)
    → ((i : ℕ) × (value_of arguments n ≡ some (number i)))
      ⊎ (value_of arguments n ≡ some other_integer)
number_argument arguments n h typed =
    let (v, e) = value_of-some arguments n h in
    elim (HasType-number v (typed v e)) [
      | inl (i, same) ↦ inl (i, e ∙ ap some same)
      | inr same ↦ inr (e ∙ ap some same)
    ]

module _ (C : Calendar) (T : JobTable) (odd : T.State → Handler → Arguments → T.State × Reply)
    (db : T.State) (arguments : Arguments) where
  -- The test of the names, next to that of a schema with the same ones.
  apply-Routed :
      (tool : Tool) (handler : Handler)
      → names tool.properties ≡ parameters handler
      → all_in (parameters handler) (names arguments) ≡ true
      → IsCalled C T odd db arguments tool.name (call_handler C T odd db handler arguments)
      → Routed C T odd db tool arguments (apply_handler C T odd db handler arguments)
  unfolding apply_handler
  apply-Routed tool handler same given own =
      elim (Bool-cases (all_in (names arguments) (parameters handler))) [
        | inl known ↦ rw (given, known) (called (ap (all_in (names arguments)) same ∙ known) own)
        | inr unknown ↦
            rw (given, unknown) (refused (ap (all_in (names arguments)) same ∙ unknown) refl)
      ]

  create-Routed :
      Conforms create_definition arguments
      → Routed C T odd db create_definition arguments
          (route_tool_call C T odd db create_definition.name arguments)
  unfolding route_tool_call tool_registry registry_from text_dec parameters all_in call_handler
      call_create
  create-Routed h =
      let (d, has_d) =
        text_argument arguments (codes "description") (ground (arith, h.given)) h.typed.0 in
      let (t, has_t) =
        text_argument arguments (codes "scheduled_at") (ground (arith, h.given)) h.typed.1.0 in
      apply-Routed create_definition create_task refl h.given
        (rw (has_d, has_t) (creates d t has_d has_t))

  list-Routed :
      Conforms list_definition arguments
      → Routed C T odd db list_definition arguments
          (route_tool_call C T odd db list_definition.name arguments)
  unfolding route_tool_call tool_registry registry_from text_dec parameters call_handler
  list-Routed h = apply-Routed list_definition list_tasks refl h.given lists

  status-Routed :
      Conforms status_definition arguments
      → Routed C T odd db status_definition arguments
          (route_tool_call C T odd db status_definition.name arguments)
  unfolding route_tool_call tool_registry registry_from text_dec parameters all_in call_handler
      call_status
  status-Routed h =
      apply-Routed status_definition get_status refl h.given
        (elim (number_argument arguments (codes "job_id") (ground (arith, h.given)) h.typed.0) [
          | inl (i, has) ↦ rw has (shows i has)
          | inr has ↦ rw has (shows_other has)
        ])

  cancel-Routed :
      Conforms cancel_definition arguments
      → Routed C T odd db cancel_definition arguments
          (route_tool_call C T odd db cancel_definition.name arguments)
  unfolding route_tool_call tool_registry registry_from text_dec parameters all_in call_handler
      call_cancel
  cancel-Routed h =
      apply-Routed cancel_definition cancel_task refl h.given
        (elim (number_argument arguments (codes "job_id") (ground (arith, h.given)) h.typed.0) [
          | inl (i, has) ↦ rw has (cancels i has)
          | inr has ↦ rw has (cancels_other has)
        ])

  IsRouted : Tool → Type 0
  IsRouted tool =
      Conforms tool arguments
      → Routed C T odd db tool arguments (route_tool_call C T odd db tool.name arguments)

-- A call of a tool that the server lists, with arguments that conform to its schema: where each of
-- their names is a property of the schema, the handler of the tool runs on their values, with no
-- answer for an unknown tool or a TypeError of the dispatch before it; where one is not, which the
-- schema allows, the call raises a TypeError and changes nothing. For a `job_id` that is negative, or
-- beyond the column of the ids, what the handler answers is the database's.
pub route_tool_call-Routed :
    (C : Calendar) (T : JobTable) (odd : T.State → Handler → Arguments → T.State × Reply)
    (db : T.State) (tool : Tool) (arguments : Arguments)
    → Has tool list_tools
    → Conforms tool arguments
    → Routed C T odd db tool arguments (route_tool_call C T odd db tool.name arguments)
unfolding list_tools tool_definitions IsRouted
route_tool_call-Routed C T odd db tool arguments listed h = elim listed [
  | inl e ↦ subst (IsRouted C T odd db arguments) (sym e) (create-Routed C T odd db arguments) h
  | inr (inl e) ↦ subst (IsRouted C T odd db arguments) (sym e) (list-Routed C T odd db arguments) h
  | inr (inr (inl e)) ↦
      subst (IsRouted C T odd db arguments) (sym e) (status-Routed C T odd db arguments) h
  | inr (inr (inr (inl e))) ↦
      subst (IsRouted C T odd db arguments) (sym e) (cancel-Routed C T odd db arguments) h
  | inr (inr (inr (inr x))) ↦ elim x [ ]
]
