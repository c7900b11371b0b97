-- ===== src/Provider/Generic.antt =====
-- internal/provider/generic/adapter.go: no prompt is read and no body is changed.
use prompt_graft.Base.{some, [], codes}
use prompt_graft.Provider.{Provider, answer}

abbrev pub generic : Provider
generic = record {
  name = codes "generic";
  hosts = [];
  extract_system_prompt = λ content_type body. answer [];
  inject_system_prompt = λ content_type body new_prompt. some (answer body);
  extract_output_text = λ content_type body. answer [];
}
