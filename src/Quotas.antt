-- ===== src/Quotas.antt =====
-- What users and accounts have spent: quotaStarts, checkPlatformQuota, incrementPlatformQuota,
-- extraNumber, quotaExpired, accountQuotaAvailable and accountQuotaDelta of internal/app/quotas.go. Times
-- are seconds. An amount of a column is the number of its last units, `10 ^ -10` for a platform and
-- `10 ^ -8` for an account. The calendars of package time are a parameter.
pub mod Platforms
pub mod Accounts
pub mod Spending
mod Tests
