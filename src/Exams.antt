-- ===== src/Exams.antt =====
-- Test authoring: app/repositories/test_repository.py and question_repository.py, and
-- app/services/test_service.py; app/services/question_validation.py; the editor's form of
-- app/web/forms.py and the spreadsheets of app/services/excel_parser.py.
pub mod Repository
pub mod Service
pub mod Form
pub mod Excel
pub mod Validation
