-- ===== src/Tests/Programs.antt =====
-- Commands whose program is looked for.
use facter.Base.{String, ◌≡◌, refl, false, none, some, [], ◌∷◌, ◌==◌, ◌<>◌, arith}
use facter.Execution.Command.{Paths, which, put_back, expand_command, trim}
use facter.Execution.Command.Expands.{spelled, expand_command-spelled}
use facter.Execution.Command.Padded.{expand_command-padded}

abbrev paths : Paths
paths = record {
  is_absolute = λ file. false;
  join = λ dir file. dir <> ("/" <> file);
  is_executable = λ file. file == "/bin/ls";
}

abbrev found : String → String
found file = which paths ("/usr/bin" ∷ "/bin" ∷ []) file

ls_trimmed : trim (spelled "l" "s" "-l") ≡ spelled "l" "s" "-l"
unfolding trim
ls_trimmed = refl

expand_command-spelled_example :
    expand_command found (spelled "l" "s" "-l")
    ≡ some (put_back found (spelled "l" "s" "-l") "" "ls" " -l")
expand_command-spelled_example = expand_command-spelled found "l" "s" "-l" refl refl refl ls_trimmed

ls_expanded : expand_command found "ls -l" ≡ some "/bin/ls -l"
unfolding expand_command which
ls_expanded = refl

tabs_trimmed : trim ("\t\t\t" <> spelled "l" "s" "x") ≡ spelled "l" "s" "x"
unfolding trim
tabs_trimmed = refl

expand_command-padded_example : expand_command found ("\t\t\t" <> spelled "l" "s" "x") ≡ none
expand_command-padded_example =
    expand_command-padded found "\t\t\t" "l" "s" "x" refl refl refl refl tabs_trimmed (omega arith)
