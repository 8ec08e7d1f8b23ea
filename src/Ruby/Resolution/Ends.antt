-- ===== src/Ruby/Resolution/Ends.antt =====
-- The value of an aggregate resolution: `aggregate_resolution::value` of
-- lib/src/ruby/aggregate_resolution.cc.
use facter.Ruby.Value.{Ruby}
use facter.Ruby.Resolution.{Resolution}
