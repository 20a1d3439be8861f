-- ===== src/Rule/Evaluator/Traces.antt =====
-- What the traces of groups and rules show (rule/evaluator.rs).
use pixiv_archive.Rule.Platform.{Platform}
