-- ===== src/Service/Provider.antt =====
-- service-request/entities/agent.entity.ts, schedule.entity.ts, provider.entity.ts,
-- factories/provider.factory.ts and the part of service-provider/interfaces that `Service` reads.
-- Ids are only compared and tested for presence, so they are natural numbers.
use vz.Common.{ℕ, String, Bool, true, false, not, ◌&&◌, ◌||◌, Option, none, some, is_some, chain}
use vz.Common.Results.{Result, ok, ◌>>◌, throw_if}
use vz.Shared.Errors.{plain}
use vz.Shared.Period.{OptPeriod}

pub record Agent : Type 0 where
  pub id : Option ℕ
  pub name : Option String
  pub phone : Option String
  pub profile_picture : Option String

pub record Schedule : Type 0 where
  pub block_after_in_minutes : Option ℕ
  pub block_before_in_minutes : Option ℕ
  pub period : OptPeriod

pub record Provider : Type 0 where
  pub dispatcher : Option Agent
  pub worker : Option Agent
  pub schedule : Option Schedule

-- `this.worker = null; this.schedule = null` comes with the dispatcher.
assign_to_dispatcher : Option Agent → Provider
assign_to_dispatcher dispatcher = record { dispatcher = dispatcher; worker = none; schedule = none }

-- The test of a worker with no schedule is a comment in the source; the third test can not pass
-- where the second has not.
allocate_to_worker : Option Agent → Option Schedule → Provider → Result Provider
allocate_to_worker worker schedule p = do
  throw_if (not (is_some (chain p.dispatcher (λ a. a.id))))
      (plain "Please first assign a dispatcher before worker allocation")
  throw_if (not (is_some worker)) (plain "Please allocate a worker and a schedule")
  throw_if (not (is_some worker) && is_some schedule) (plain "Please allocate a worker first")
  ok (record p { worker = worker; schedule = schedule })

-- The constructor of `Provider`, none of its arguments undefined; `ProviderFactory.create`.
unfoldable pub create : Option Agent → Option Agent → Option Schedule → Result Provider
unfolding assign_to_dispatcher allocate_to_worker
create dispatcher worker schedule =
    let p = assign_to_dispatcher dispatcher in
    elim (is_some worker || is_some schedule) [
      | true ↦ allocate_to_worker worker schedule p
      | false ↦ ok p
    ]

abbrev pub empty_agent : Agent
empty_agent = record { id = none; name = none; phone = none; profile_picture = none }

-- `ProviderFactory.createEmptyProvider`: agents that are there, with no id.
unfoldable pub create_empty_provider : Provider
create_empty_provider = record {
  dispatcher = some empty_agent;
  worker = some empty_agent;
  schedule = some (record {
    block_after_in_minutes = none;
    block_before_in_minutes = none;
    period = record { start = none; end = none; timezone_offset = none };
  });
}

-- src/shared/enums/service-provider-type.ts
pub data ServiceProviderType : Type 0 where
  dealer independent worker : ServiceProviderType

-- The getters of `IServiceProvider` that requests and services call.
pub record ServiceProvider : Type 0 where
  pub id : ℕ
  pub name : Option String
  pub phone : Option String
  pub profile_picture : Option String
  pub type : ServiceProviderType

abbrev pub is_worker : ServiceProvider → Bool
is_worker p = elim p.type [ ServiceProviderType.worker ↦ true | _ ↦ false ]

abbrev pub is_independent : ServiceProvider → Bool
is_independent p = elim p.type [ ServiceProviderType.independent ↦ true | _ ↦ false ]

abbrev pub is_dealer : ServiceProvider → Bool
is_dealer p = elim p.type [ ServiceProviderType.dealer ↦ true | _ ↦ false ]

-- `new Agent(p.getId(), p.getName(), p.getPhone(), p.getProfilePicture())`
abbrev pub agent_of : ServiceProvider → Agent
agent_of p = record {
  id = some p.id;
  name = p.name;
  phone = p.phone;
  profile_picture = p.profile_picture;
}
