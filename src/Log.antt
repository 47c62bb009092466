-- ===== src/Log.antt =====
-- netsim/utils/log.py, as the components see it: log.error adds an entry and goes on. The text of a
-- message is not modelled; its category and the module that reports it are.
use netlab.Prelude.{String, List}

pub data Category : Type 0 where
  incorrect_value incorrect_type incorrect_attr missing_value fatal_error warning : Category

pub record Report : Type 0 where
  pub category : Category
  pub module_name : String

abbrev pub report : Category → String → Report
report c m = record { category = c; module_name = m }

abbrev pub Reports : Type 0
Reports = List Report
