-- ===== src/Exams/Form/Save.antt =====
-- The answer of `save_draft`, and what it stores.
use testify.Common.{some, none, Option, if◌then◌else◌}
use testify.Models.{Test, is_draft}
use testify.Exams.Form.{Response, not_found, conflict, refused_form}

-- The answers without a write.
abbrev pub rejection : Option Test → Response
rejection none = not_found
rejection (some test) = if is_draft test.status then refused_form else conflict
