-- ===== src/Ruby/Module/Execute.antt =====
-- Commands that custom facts run: `ruby_which`, `ruby_exec`, `ruby_execute` and `execute_command` of
-- lib/src/ruby/module.cc. What runs a command is `Shell`; the options of a call are what the lookups
-- in the hash give.
use facter.Base.{
  ℕ, String, ◌≡◌, ◌⊎◌, arith, Bool, true, false, Option, none, some, ◌^◌, ◌%◌, if◌then◌else◌,
  is_empty_str,
}
use facter.Ruby.Value.{Ruby, ruby_nil, text, number, symbol, Result, ok, raise, runtime_error}

pub data Executed : Type 0 where
  timed_out : String → Executed
  executed : Bool → String → Executed

pub record Shell : Type 0 where
  -- the empty text where there is no such program
  pub which : String → String
  pub expand_command : String → String
  -- with a timeout in seconds, where 0 is none
  pub execute : String → ℕ → Executed
  -- `ruby.equals`
  pub equals : Ruby → Ruby → Bool
  -- `rb_num2ulong` of a fixnum
  pub num2ulong : ℕ → ℕ

pub record ExecuteOptions : Type 0 where
  pub timeout : Ruby
  pub on_fail : Option Ruby

module _ (shell : Shell) where
  unfoldable pub ruby_which : String → Ruby
  ruby_which binary =
      let path = shell.which binary in if is_empty_str path then ruby_nil else text path

  abbrev pub answer : Ruby → Bool → Executed → Result Ruby
  answer failure_default raises (timed_out what) = raise (runtime_error what)
  answer failure_default raises (executed true output) = ok (text output)
  answer failure_default raises (executed false output) =
      if raises then raise (runtime_error "execution of the command failed") else ok failure_default

  unfoldable pub execute_command : String → Ruby → Bool → ℕ → Result Ruby
  execute_command command failure_default raises timeout =
      answer failure_default raises (shell.execute (shell.expand_command command) timeout)

  -- `Facter::Core::Execution.exec`
  unfoldable pub ruby_exec : String → Result Ruby
  unfolding execute_command
  ruby_exec command = execute_command command ruby_nil false 0

  -- A cast to `uint32_t`
  abbrev pub seconds : Ruby → ℕ
  seconds (number n) = shell.num2ulong n % 2 ^ 32
  seconds _ = 0

  abbrev pub fail_option : Option Ruby → Ruby
  fail_option none = symbol "raise"
  fail_option (some v) = v

  -- `Facter::Core::Execution.execute`, with or without the hash of options
  unfoldable pub ruby_execute : String → Option ExecuteOptions → Result Ruby
  unfolding execute_command
  ruby_execute command none = execute_command command ruby_nil true 0
  ruby_execute command (some o) =
      let given = fail_option o.on_fail in
      if shell.equals given (symbol "raise")
      then execute_command command ruby_nil true (seconds o.timeout)
      else execute_command command given false (seconds o.timeout)

  -- Without a timeout, what `execute` gives is what `exec` gives, or the value for failures where
  -- `exec` gives nil.
  pub ruby_execute-exec :
      shell.equals (symbol "raise") (symbol "raise") ≡ true
      → (command : String) (o : ExecuteOptions) (v : Ruby) → seconds o.timeout ≡ 0
      → ruby_execute command (some o) ≡ ok v
      → (ruby_exec command ≡ ok v) ⊎ ((ruby_exec command ≡ ok ruby_nil) × (o.on_fail ≡ some v))
  unfolding ruby_execute ruby_exec execute_command
  ruby_execute-exec same command o v none_given h = ground (arith, h, none_given, same)
