-- ===== src/Tasks/Tools/Tests.antt =====
-- A run of the dispatch, on a call of a listed tool.
use sd_practice_qr_code_gene.Base.{List, [], ◌∷◌, ◌≡◌, some, inl, inr, refl, Has}
use mathlib.Core.Path.{subst}
use mathlib.Core.Option.{some-injective}
use sd_practice_qr_code_gene.Base.Text.{codes, text_dec, is_in}
use sd_practice_qr_code_gene.Tasks.{Job}
use sd_practice_qr_code_gene.Tasks.Tests.{test_table, test_calendar, one_job}
use sd_practice_qr_code_gene.Tasks.Handlers.{Reply, type_error}
use sd_practice_qr_code_gene.Tasks.Tools.{
  integer, Value, number, Arguments, Handler, status_definition, tool_definitions, list_tools,
  value_of, all_in, route_tool_call,
}
use sd_practice_qr_code_gene.Tasks.Tools.Calls.{
  HasType, is_number, Conforms, Routed, route_tool_call-Routed,
}

abbrev job_one : Arguments
job_one = (codes "job_id", number 1) ∷ []

job_one-HasType : (v : Value) → value_of job_one (codes "job_id") ≡ some v → HasType integer v
unfolding value_of text_dec
job_one-HasType v e = subst (HasType integer) (some-injective (number 1) v e) (is_number 1)

job_one-Conforms : Conforms status_definition job_one
unfolding all_in is_in text_dec
job_one-Conforms = record { given = refl; typed = (job_one-HasType, tt) }

abbrev no_library : List Job → Handler → Arguments → List Job × Reply
no_library db handler arguments = (db, type_error)

status_listed : Has status_definition list_tools
unfolding list_tools tool_definitions
status_listed = inr (inr (inl refl))

route_tool_call-Routed_example :
    Routed test_calendar test_table no_library one_job status_definition job_one
      (route_tool_call test_calendar test_table no_library one_job status_definition.name job_one)
route_tool_call-Routed_example =
    route_tool_call-Routed test_calendar test_table no_library one_job status_definition job_one
      status_listed job_one-Conforms
