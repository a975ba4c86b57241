-- ===== src/Tasks/Tools.antt =====
-- chatgpt_task/scaffold/app/mcp_server.py: the tools that a client sees, and the dispatch of its
-- calls. The JSON text of the reply is left out.
mod Tests
pub mod Calls
use sd_practice_qr_code_gene.Base.{
  ℕ, Bool, true, false, Option, none, some, List, [], ◌∷◌, ite, map, ◌&&◌, if◌then◌else◌,
}
use sd_practice_qr_code_gene.Base.Text.{Text, codes, text_dec, is_in}
use sd_practice_qr_code_gene.Tasks.{Calendar, JobTable}
use sd_practice_qr_code_gene.Tasks.Handlers.{
  Reply, unknown_tool, type_error, handle_create_task, handle_get_status, handle_list_tasks,
  handle_cancel_task,
}

-- "type" in an `inputSchema`.
pub data JsonType : Type 0 where
  string integer : JsonType

-- A `number` is an integer that the column of the ids can hold and that is not negative; any other
-- integer is an `other_integer`.
pub data Value : Type 0 where
  text : Text → Value
  number : ℕ → Value
  other_integer : Value
  other_value : Value

-- A JSON object, as its entries; none of their names comes twice.
abbrev pub Arguments : Type 0
Arguments = List (Text × Value)

-- `Tool`; the descriptions are left out.
pub record Tool : Type 0 where
  pub name : Text
  pub properties : List (Text × JsonType)
  pub required : List Text

abbrev pub create_definition : Tool
create_definition = record {
  name = codes "task.create";
  properties = (codes "description", string) ∷ (codes "scheduled_at", string) ∷ [];
  required = codes "description" ∷ codes "scheduled_at" ∷ [];
}

abbrev pub list_definition : Tool
list_definition = record { name = codes "task.list"; properties = []; required = [] }

abbrev pub status_definition : Tool
status_definition = record {
  name = codes "task.status";
  properties = (codes "job_id", integer) ∷ [];
  required = codes "job_id" ∷ [];
}

abbrev pub cancel_definition : Tool
cancel_definition = record {
  name = codes "task.cancel";
  properties = (codes "job_id", integer) ∷ [];
  required = codes "job_id" ∷ [];
}

unfoldable pub tool_definitions : List Tool
tool_definitions = create_definition ∷ list_definition ∷ status_definition ∷ cancel_definition ∷ []

-- The handlers, by the names of their functions without `handle_`.
pub data Handler : Type 0 where
  create_task list_tasks get_status cancel_task : Handler

unfoldable pub registry_from : List (Text × Handler) → Text → Option Handler
registry_from [] name = none
registry_from ((n, handler) ∷ rest) name =
    let later = registry_from rest name in ite (text_dec n name) (some handler) later

unfoldable pub tool_registry : Text → Option Handler
tool_registry = registry_from (
    (codes "task.create", create_task)
    ∷ (codes "task.list", list_tasks)
    ∷ (codes "task.status", get_status)
    ∷ (codes "task.cancel", cancel_task)
    ∷ [])

-- The parameters after the `*` of a handler.
unfoldable pub parameters : Handler → List Text
parameters create_task = codes "description" ∷ codes "scheduled_at" ∷ []
parameters list_tasks = []
parameters get_status = codes "job_id" ∷ []
parameters cancel_task = codes "job_id" ∷ []

unfoldable pub value_of : Arguments → Text → Option Value
value_of [] name = none
value_of ((n, v) ∷ rest) name =
    let later = value_of rest name in ite (text_dec n name) (some v) later

-- Whether each text of a list is in another.
unfoldable pub all_in : List Text → List Text → Bool
all_in [] ys = true
all_in (x ∷ xs) ys = let rest = all_in xs ys in is_in x ys && rest

abbrev pub names : {A : Type 0} → List (Text × A) → List Text
names l = map (λ e. e.0) l

-- `odd` is what a handler, with the libraries and the database, makes of a value that is not of its
-- parameter's type, or of an integer that is no `number`.
module _ (C : Calendar) (T : JobTable) (odd : T.State → Handler → Arguments → T.State × Reply) where
  unfoldable pub call_create : T.State → Arguments → Option Value → Option Value → T.State × Reply
  call_create db arguments (some (text d)) (some (text t)) = handle_create_task C T db d t
  call_create db arguments _ _ = odd db create_task arguments

  unfoldable pub call_status : T.State → Arguments → Option Value → T.State × Reply
  call_status db arguments (some (number i)) = (db, handle_get_status T db i)
  call_status db arguments _ = odd db get_status arguments

  unfoldable pub call_cancel : T.State → Arguments → Option Value → T.State × Reply
  call_cancel db arguments (some (number i)) = handle_cancel_task T db i
  call_cancel db arguments _ = odd db cancel_task arguments

  -- The body of a handler, with each parameter given.
  unfoldable pub call_handler : T.State → Handler → Arguments → T.State × Reply
  call_handler db create_task arguments =
      call_create db arguments (value_of arguments (codes "description"))
        (value_of arguments (codes "scheduled_at"))
  call_handler db list_tasks arguments = (db, handle_list_tasks T db)
  call_handler db get_status arguments =
      call_status db arguments (value_of arguments (codes "job_id"))
  call_handler db cancel_task arguments =
      call_cancel db arguments (value_of arguments (codes "job_id"))

  -- `handler(db, **arguments)`: a parameter that is missing, or a name that is none, is a TypeError.
  unfoldable pub apply_handler : T.State → Handler → Arguments → T.State × Reply
  apply_handler db handler arguments =
      let given = all_in (parameters handler) (names arguments) in
      let known = all_in (names arguments) (parameters handler) in
      if given && known then call_handler db handler arguments else (db, type_error)

  unfoldable pub route_tool_call : T.State → Text → Arguments → T.State × Reply
  route_tool_call db tool_name arguments = elim (tool_registry tool_name) [
    | none ↦ (db, unknown_tool tool_name)
    | some handler ↦ apply_handler db handler arguments
  ]

  -- `arguments or {}`; the client may send none.
  unfoldable pub call_tool : T.State → Text → Option Arguments → T.State × Reply
  call_tool db name none = route_tool_call db name []
  call_tool db name (some arguments) = route_tool_call db name arguments

unfoldable pub list_tools : List Tool
list_tools = tool_definitions
