-- ===== src/CloudInit/Header.antt =====
-- The lines of a text, and the header lines of a cloud config and of a YAML document.
use Prim.Native.Char.{code}
use cluster_api_provider_elf.Base.{
  String, ◌+++◌, Bool, ◌&&◌, ◌||◌, List, [], ◌∷◌, ◌++◌, ◌==◌, str_eq, if◌then◌else◌,
}
use cluster_api_provider_elf.Messages.{trim_left, trim_right, is_space}

-- strings.Split at line feeds: the line that is being read, and the ones after it.
unfoldable pub lines_from : String → String × List String
lines_from String.[] = ("", [])
lines_from (String.◌∷◌ c s) =
    let (line, lines) = lines_from s in
    if code c == 10 then ("", line ∷ lines) else (String.◌∷◌ c line, lines)

unfoldable pub split_lines : String → List String
unfolding lines_from
split_lines s = let (line, lines) = lines_from s in line ∷ lines

-- strings.Join
unfoldable pub join : String → List String → String
join sep [] = ""
join sep (s ∷ []) = s
join sep (s ∷ t ∷ ss) = s +++ (sep +++ join sep (t ∷ ss))

-- strings.TrimSpace
unfoldable pub trim_space : String → String
unfolding trim_left trim_right
trim_space s = trim_left is_space (trim_right is_space s)

-- strings.HasSuffix
unfoldable pub has_suffix : String → String → Bool
has_suffix String.[] t = str_eq "" t
has_suffix (String.◌∷◌ c s) t = str_eq (String.◌∷◌ c s) t || has_suffix s t

-- strings.TrimSuffix(s, "\n")
unfoldable pub trim_newline : String → String
trim_newline String.[] = ""
trim_newline (String.◌∷◌ c s) =
    let rest = trim_newline s in if (code c == 10) && str_eq s "" then "" else String.◌∷◌ c rest

-- The lines after the empty ones in front.
unfoldable pub skip_blank : List String → List String
unfolding trim_space
skip_blank [] = []
skip_blank (l ∷ ls) = let rest = skip_blank ls in if str_eq (trim_space l) "" then rest else l ∷ ls

-- What follows the line of the template, if there is one. The original text stands behind a
-- header that is none.
unfoldable pub after_template : String → List String → List String → String × String
unfolding trim_space skip_blank join
after_template original front [] = ("", original)
after_template original front (l ∷ ls) =
    if str_eq (trim_space l) "#cloud-config"
    then (join "\n" (front ++ l ∷ []), join "\n" (skip_blank ls))
    else ("", original)

abbrev pub cloud_config_header : String → List String → String × String
unfolding trim_space after_template
cloud_config_header original [] = ("", original)
cloud_config_header original (l ∷ ls) =
    if str_eq (trim_space l) "## template: jinja"
    then after_template original (l ∷ []) ls
    else after_template original [] (l ∷ ls)

unfoldable pub split_cloud_config_header : String → String × String
unfolding split_lines trim_space after_template
split_cloud_config_header original = cloud_config_header original (split_lines original)

abbrev pub yaml_document_header : String → List String → String × String
unfolding trim_space skip_blank join
yaml_document_header original [] = ("", original)
yaml_document_header original (l ∷ ls) =
    if str_eq (trim_space l) "---" then (l, join "\n" (skip_blank ls)) else ("", original)

unfoldable pub split_yaml_document_header : String → String × String
unfolding split_lines trim_space skip_blank join
split_yaml_document_header original = yaml_document_header original (split_lines original)
